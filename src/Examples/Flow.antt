-- ===== src/Examples/Flow.antt =====
-- The theorems on sequences of transactions, at the small yard.
use delivery_driver_manageme.Base.{
  ℕ, ◌≡◌, ◌⊎◌, none, refl, sym, subst, false, some, ◌∷◌, arith, count_by, any, find_by,
}
use delivery_driver_manageme.Schema.{DeliveryStatus, Message}
use delivery_driver_manageme.Store.{Db}
use delivery_driver_manageme.SlotState.{is_active_at}
use delivery_driver_manageme.Lifecycle.{cancel_delivery}
use delivery_driver_manageme.AutoAssign.{assign_next_delivery_to_slot}
use delivery_driver_manageme.CloseDay.Laws.{IsSound}
use delivery_driver_manageme.Workflow.{status_of, CanReach, IsFinal, Step, Reaches}
use delivery_driver_manageme.Workflow.Refinement.{Reaches-CanReach, Reaches-IsFinal}
use delivery_driver_manageme.Examples.{yard, staff, truck_of}

-- The yard, with a delivery that is done.
abbrev busy : Db
busy = record yard { deliveries = truck_of 24 DeliveryStatus.completed ∷ yard.deliveries }

busy-IsSound : IsSound busy
unfolding is_active_at count_by any
busy-IsSound = record {
  consistent = record {
    keyed = record {
      deliveries_unique = (refl, (refl, (refl, (refl, tt))));
      slots_unique = (refl, tt);
      slots_named = (refl, tt);
    };
    settled = (((λ e. cc), (λ e. omega arith)), tt);
    within = (omega arith, tt);
  };
  once = tt;
}

abbrev assigned : Db
assigned = (assign_next_delivery_to_slot (λ i. false) busy 1 7 3 100).0

abbrev later : Db
later = (cancel_delivery assigned 24 5 staff (Message.other 5) 200).0

busy-later : Reaches busy later
busy-later =
    Reaches.then_ busy assigned later
      (Reaches.then_ busy busy assigned (Reaches.here busy)
        (Step.assign (λ i. false) 1 7 3 100 busy))
      (Step.cancel 24 5 staff (Message.other 5) 200 assigned)

status_24 : status_of 24 busy ≡ some DeliveryStatus.completed
unfolding find_by
status_24 = refl

final_24 : IsFinal (status_of 24 busy)
final_24 = subst IsFinal (sym status_24) IsFinal.done

Reaches-CanReach_example :
    IsSound later × ((j : ℕ) → CanReach (status_of j busy) (status_of j later))
Reaches-CanReach_example = Reaches-CanReach busy later busy-IsSound busy-later

Reaches-IsFinal_example : (status_of 24 later ≡ status_of 24 busy) ⊎ (status_of 24 later ≡ none)
Reaches-IsFinal_example = Reaches-IsFinal busy later 24 busy-IsSound busy-later final_24
