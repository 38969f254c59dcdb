-- ===== src/NoShow/Laws.antt =====
-- What the job that cancels no-shows does to each delivery.
use delivery_driver_manageme.Base.{
  ℕ, ◌+◌, ◌≤◌, true, sym, subst, ◌==◌, ◌≡◌, ◌⊎◌, inl, inr, refl, ap, ◌∙◌, false, some, List, [],
  ◌∷◌, length, arith, All, Option-cases, Bool-cases, ==_iff, ◌===◌,
}
use delivery_driver_manageme.Schema.{Delivery, Message, DeliveryStatus, status_eq, event_eq}
use delivery_driver_manageme.Store.{Db, find_delivery, config_of}
use delivery_driver_manageme.History.{get_last_call_history_event}
use delivery_driver_manageme.Consistency.{IsConsistent}
use delivery_driver_manageme.Lifecycle.{mark_cancelled}
use delivery_driver_manageme.Lifecycle.Laws.{
  is_cancellable, cancel_delivery_refused, cancel_delivery_effect,
}
use delivery_driver_manageme.AutoAssign.{auto_assign_actor}
use delivery_driver_manageme.NoShow.{
  is_candidate, candidates, last_called_at, threshold_minutes, too_early, cancel_candidate,
  cancel_each, auto_cancel_called_no_show_deliveries,
}
use delivery_driver_manageme.NoShow.Turns.{
  IsNoShow, IsQuiet, IsLastCall, candidates-own, bit-le_one, cancel_candidate-cases,
  cancel_candidate-IsConsistent, find_delivery-cancel_candidate, calls-cancel_candidate,
  last_called_at-cases, threshold_minutes-found, elapsed_minutes,
}

module _ (clock : ℕ → ℕ) (label reason : ℕ) where
  -- One delivery and what the job has made of it so far.
  module _ (read : Db) (d : Delivery) where
    abbrev IsCancelledBy : Db → Type 0
    IsCancelledBy db =
        (k : ℕ) × (last : ℕ) × IsNoShow read d last (clock k)
        × (find_delivery d.id db ≡ some (mark_cancelled reason (clock k) d))

    abbrev IsUntouched : Db → Type 0
    IsUntouched db =
        (find_delivery d.id db ≡ some d)
        × (get_last_call_history_event d.id db ≡ get_last_call_history_event d.id read)

    record IsRight (db : Db) : Type 0 where
      consistent : IsConsistent db
      fate : IsUntouched db ⊎ IsCancelledBy db

    move-IsRight :
        (db db' : Db)
        → IsConsistent db'
        → find_delivery d.id db' ≡ find_delivery d.id db
        → get_last_call_history_event d.id db' ≡ get_last_call_history_event d.id db
        → IsRight db
        → IsRight db'
    move-IsRight db db' c row calls right = record {
      consistent = c;
      fate = elim right.fate [
        | inl (found, same) ↦ inl (row ∙ found, calls ∙ same)
        | inr (k, last, due, found) ↦ inr (k, last, due, row ∙ found)
      ];
    }

    no_show :
        (db : Db) (k last : ℕ)
        → get_last_call_history_event d.id db ≡ get_last_call_history_event d.id read
        → is_candidate read d ≡ true
        → last_called_at db d ≡ some last
        → too_early (clock k) last (threshold_minutes read d) ≡ false
        → IsNoShow read d last (clock k)
    unfolding is_candidate last_called_at threshold_minutes too_early
    no_show db k last calls due called early =
        let s : (d.status === DeliveryStatus.called) ≡ true = ground (arith, due) in
        elim (Option-cases d.called_time) [
          | inl unset ↦ let no : false ≡ true = ground (arith, due, unset) in cc
          | inr (t, at) ↦ elim (Option-cases (config_of d.unit_config_id read)) [
            | inl lost ↦ let no : false ≡ true = ground (arith, due, lost) in cc
            | inr (u, e) ↦ record {
              called = (status_eq.eq_iff _ _).0 s;
              called_at = (t, at);
              unit = u;
              unit_found = e;
              enabled = ground (arith, due, e);
              last_call = subst (IsLastCall d last) calls (last_called_at-cases db d last called);
              elapsed = elapsed_minutes (clock k) last u.auto_cancel_called_after_minutes (
                  subst (λ n. too_early (clock k) last n ≡ false)
                    (threshold_minutes-found read d u e) early);
            }
          ]
        ]

    -- A turn for the delivery itself.
    own_turn :
        (k : ℕ) (db : Db)
        → is_candidate read d ≡ true
        → IsRight db
        → IsRight (cancel_candidate clock label reason read k db d).0
    own_turn k db due right =
        let c = cancel_candidate-IsConsistent clock label reason read k db d right.consistent in
        elim (cancel_candidate-cases clock label reason read k db d) [
          | inl (same, _) ↦ subst IsRight (sym same) right
          | inr (last, called, early, e) ↦ elim right.fate [
            | inl (found, calls) ↦
                let met = no_show db k last calls due called early in
                let may : is_cancellable d.status ≡ true = rw met.called refl in
                record {
                  consistent = c;
                  fate = inr (
                    k,
                    last,
                    met,
                    ap (find_delivery d.id) e
                        ∙ (cancel_delivery_effect db d.id reason _ _ (clock k) d
                            right.consistent.keyed found may).0,
                  );
                }
            | inr (n, before, met, found) ↦
                let stays =
                  cancel_delivery_refused db d.id reason (auto_assign_actor label)
                    (Message.other reason) (clock k) (mark_cancelled reason (clock n) d) found
                    refl in
                subst IsRight (sym (e ∙ stays)) right
          ]
        ]

    turn-IsRight :
        (k : ℕ) (db : Db) (x : Delivery)
        → (x.id ≡ d.id → x ≡ d) × (is_candidate read x ≡ true)
        → IsRight db
        → IsRight (cancel_candidate clock label reason read k db x).0
    turn-IsRight k db x (own, due) right = elim (Bool-cases (x.id == d.id)) [
      | inl here ↦
          let e = own ((==_iff _ _).0 here) in
          subst (λ z. IsRight (cancel_candidate clock label reason read k db z).0) (sym e)
            (own_turn k db (subst (λ z. is_candidate read z ≡ true) e due) right)
      | inr there ↦
          move-IsRight db _
            (cancel_candidate-IsConsistent clock label reason read k db x right.consistent)
            (find_delivery-cancel_candidate clock label reason read k db x d.id there
              right.consistent)
            (calls-cancel_candidate clock label reason read k db x d.id) right
    ]

    module _ (others : ℕ → Db → Db) (quiet : IsQuiet d.id others) where
      cancel_each-IsRight :
          (k : ℕ) (db : Db) (xs : List Delivery)
          → All (λ (x : Delivery). (x.id ≡ d.id → x ≡ d) × (is_candidate read x ≡ true)) xs
          → IsRight db
          → let (db', n) = cancel_each clock label reason others read k db xs in
            IsRight db' × (n ≤ length xs)
      unfolding cancel_each
      cancel_each-IsRight k db [] own right = (right, omega arith)
      cancel_each-IsRight k db (x ∷ xs) own right =
          let before = others (length xs) db in
          let right' =
            move-IsRight db before (quiet.consistent (length xs) db right.consistent)
              (quiet.row (length xs) db) (quiet.calls (length xs) db) right in
          let turned = cancel_candidate clock label reason read k before x in
          let rest =
            cancel_each-IsRight (k + 1) turned.0 xs own.1 (turn-IsRight k before x own.0 right') in
          (rest.0, omega (arith, rest.1, bit-le_one turned.1))

  -- From a consistent yard, if what other transactions write meanwhile keeps the yard consistent and
  -- leaves a delivery and its calls alone, the job that cancels no-shows leaves the yard consistent and
  -- succeeds at most once per candidate. That delivery is as it was, or it is stored as cancelled: then it
  -- was called, its unit cancels no-shows, and since its last call the minutes that the unit allows had
  -- passed at the time of its turn.
  pub auto_cancel_called_no_show_deliveries_effect :
      (others : ℕ → Db → Db) (db : Db) (d : Delivery)
      → IsConsistent db
      → find_delivery d.id db ≡ some d
      → IsQuiet d.id others
      → let (db', r) = auto_cancel_called_no_show_deliveries clock label reason others db in
        IsConsistent db'
        × (r.succeeded ≤ r.processed)
        × ((find_delivery d.id db' ≡ some d)
            ⊎ ((k : ℕ) × (last : ℕ) × IsNoShow db d last (clock k)
                × (find_delivery d.id db' ≡ some (mark_cancelled reason (clock k) d))))
  unfolding auto_cancel_called_no_show_deliveries
  auto_cancel_called_no_show_deliveries_effect others db d c h quiet =
      let (right, le) =
        cancel_each-IsRight db d others quiet 0 db (candidates db) (candidates-own db d c h)
          (record { consistent = c; fate = inl (h, refl) }) in
      (right.consistent, le, elim right.fate [ inl u ↦ inl u.0 | inr done ↦ inr done ])
