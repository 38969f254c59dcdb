-- ===== src/Register/Effects.antt =====
-- One unfinished registration per plate, location and day.
use delivery_driver_manageme.Base.{
  ℕ, ◌≡◌, refl, ap, sym, subst, ◌∙◌, Bool, true, false, bit, Option, none, some, List, [], ◌∷◌, inl,
  inr, arith, All, All-map, select-All, select, ok, length, count_by, count_by-select,
  count_by-update_row, has_row, Unique, find_by, update_row, update_row-Unique, find_row,
  find_row-update_row_self, ==_refl,
}
use delivery_driver_manageme.Schema.{
  Text, DeliveryStatus, status_eq, vehicle_eq, UnitConfig, Delivery,
}
use delivery_driver_manageme.Store.{Db, delivery_id, find_delivery, find_unit_config, config_of}
use delivery_driver_manageme.SlotState.{is_active_at}
use delivery_driver_manageme.Consistency.{IsConsistent, same_slots-IsConsistent}
use delivery_driver_manageme.Lifecycle.Laws.{occupancy-update}
use delivery_driver_manageme.Tickets.{Calendar, IsCalendar}
use delivery_driver_manageme.CheckIn.{same_text}
use delivery_driver_manageme.Registration.{Spelling}
use delivery_driver_manageme.Register.{
  RegisterArgs, duplicate_day, is_duplicate, find_duplicate_registration, registration_data,
  new_delivery, register_delivery,
}
use delivery_driver_manageme.Register.Laws.{
  IsCreated, IsRewritten, matches, register_delivery-cases,
}

same_text_refl : (text : Text) → same_text text text ≡ true
unfolding same_text
same_text_refl [] = refl
same_text_refl (c ∷ cs) = rw (==_refl c) (same_text_refl cs)

inactive-registered :
    (j : ℕ) (d : Delivery) → d.status ≡ DeliveryStatus.registered → bit (is_active_at j d) ≡ 0
unfolding is_active_at
inactive-registered j d s = ground (arith, s)

config_of-configs :
    (o : Option ℕ) (db db' : Db)
    → db'.unit_configs ≡ db.unit_configs
    → config_of o db' ≡ config_of o db
unfolding config_of
config_of-configs none db db' e = refl
config_of-configs (some i) db db' e = ap (find_row (λ (u : UnitConfig). u.id) i) e

-- The query reads the unit configurations, and no other table.
is_duplicate-configs :
    (calendar : Calendar) (db db' : Db) (plate : Text) (location key : ℕ) (d : Delivery)
    → db'.unit_configs ≡ db.unit_configs
    → is_duplicate calendar db' plate location key d ≡ is_duplicate calendar db plate location key d
unfolding is_duplicate
is_duplicate-configs calendar db db' plate location key d e =
    rw (config_of-configs d.unit_config_id db db' e) refl

all_units {ℓ} : {A : Type ℓ} (xs : List A) → All (λ x. Unit {0}) xs
all_units [] = tt
all_units (x ∷ xs) = (tt, all_units xs)

count_by-same {ℓ} :
    {A : Type ℓ} (f g : A → Bool) (xs : List A)
    → ((x : A) → f x ≡ g x)
    → count_by f xs ≡ count_by g xs
unfolding count_by
count_by-same f g [] same_at = refl
count_by-same f g (x ∷ xs) same_at = rw (same_at x, count_by-same f g xs same_at) refl

module _ (calendar : Calendar) (spelling : Spelling) (location : Text) (label : ℕ)
    (unit : UnitConfig) (args : RegisterArgs) (new_id now t : ℕ) (db : Db)
    (known : IsCalendar calendar) (asked : args.requested_time ≡ some t)
    (config : find_unit_config unit.id db ≡ some unit) where
  abbrev key : ℕ
  key = duplicate_day calendar args

  abbrev is_rival : Delivery → Bool
  is_rival = is_duplicate calendar db args.vehicle_plate unit.business_location_id key

  -- A registration with the arguments' plate, unit and time.
  own_rival :
      (d : Delivery)
      → d.vehicle_plate ≡ args.vehicle_plate
      → d.unit_config_id ≡ some unit.id
      → d.status ≡ DeliveryStatus.registered
      → d.requested_time ≡ args.requested_time
      → is_rival d ≡ true
  unfolding is_duplicate duplicate_day config_of
  own_rival d plate place status time =
      rw
        (
          plate,
          place,
          status,
          time,
          asked,
          config,
          same_text_refl args.vehicle_plate,
          ==_refl unit.business_location_id,
          known.same_day (calendar.vn_date_key t) t,
          ==_refl (calendar.vn_date_key t),
        )
        refl

  rivals-count :
      (ds : List Delivery)
      → matches calendar spelling location label unit args new_id now db ≡ ds
      → count_by is_rival db.deliveries ≡ length ds
  unfolding find_duplicate_registration
  rivals-count ds e = sym (count_by-select is_rival db.deliveries) ∙ ap length e

  module _ (db' : Db) (d : Delivery) (c : IsConsistent db) where
    module _ (fresh : has_row delivery_id new_id db.deliveries ≡ false)
        (made : IsCreated calendar spelling location label unit args new_id now db db' d) where
      created-id : d.id ≡ new_id
      unfolding new_delivery
      created-id = ap (λ z. z.id) made.is_new

      created-registered : d.status ≡ DeliveryStatus.registered
      unfolding new_delivery
      created-registered = ap (λ z. z.status) made.is_new

      created-rival : is_rival d ≡ true
      unfolding new_delivery
      created-rival =
          own_rival d (ap (λ z. z.vehicle_plate) made.is_new)
            (ap (λ z. z.unit_config_id) made.is_new) created-registered
            (ap (λ z. z.requested_time) made.is_new)

      created-Unique : Unique delivery_id db'.deliveries
      created-Unique = subst (Unique delivery_id) (sym made.rows) (
        subst (λ z. has_row delivery_id z db.deliveries ≡ false) (sym created-id) fresh,
        c.keyed.deliveries_unique,
      )

      created-IsConsistent : IsConsistent db'
      unfolding count_by
      created-IsConsistent =
          same_slots-IsConsistent db db' made.slots created-Unique
            (λ j.
              ap (count_by (is_active_at j)) made.rows
              ∙ omega (arith, inactive-registered j d created-registered))
            c

      created-found : find_delivery d.id db' ≡ some d
      unfolding find_by
      created-found = ap (find_row delivery_id d.id) made.rows ∙ rw (==_refl d.id) refl

      created-one : count_by is_rival db'.deliveries ≡ 1
      unfolding count_by
      created-one =
          ap (count_by is_rival) made.rows
          ∙ rw created-rival (omega (arith, rivals-count [] made.alone))

    module _
        (made : IsRewritten calendar spelling location label unit args new_id now db db' d) where
      abbrev again : Delivery → Delivery
      again = registration_data args unit.id now

      rewritten-rows : db'.deliveries ≡ update_row delivery_id made.old.id again db.deliveries
      rewritten-rows = ap (λ z. z.deliveries) made.rows

      kept-id : (x : Delivery) → (again x).id ≡ x.id
      unfolding registration_data
      kept-id x = refl

      again-registered : (again made.old).status ≡ DeliveryStatus.registered
      unfolding registration_data
      again-registered = made.reopened.registered

      again-rival : is_rival (again made.old) ≡ true
      unfolding registration_data
      again-rival = own_rival (again made.old) refl refl again-registered refl

      old-rival : is_rival made.old ≡ true
      unfolding find_duplicate_registration
      old-rival =
          let hits : All (λ x. is_rival x ≡ true) (select is_rival db.deliveries) =
            select-All (λ x. is_rival x ≡ true) is_rival db.deliveries
              (All-map (λ x. Unit {0}) _ db.deliveries (λ x _ pass. pass)
                (all_units db.deliveries)) in
          (subst (All (λ x. is_rival x ≡ true)) made.only hits).0

      rewritten-Unique : Unique delivery_id db'.deliveries
      rewritten-Unique = subst (Unique delivery_id) (sym rewritten-rows) (
          update_row-Unique delivery_id again kept-id made.old.id db.deliveries
            c.keyed.deliveries_unique)

      rewritten-IsConsistent : IsConsistent db'
      rewritten-IsConsistent =
          same_slots-IsConsistent db db' (ap (λ z. z.slots) made.rows) rewritten-Unique
            (λ j.
              ap (count_by (is_active_at j)) rewritten-rows
              ∙ omega (
                arith,
                occupancy-update db made.old.id j again made.old c.keyed made.reopened.found,
                inactive-registered j made.old made.reopened.registered,
                inactive-registered j (again made.old) again-registered,
              ))
            c

      rewritten-found : find_delivery d.id db' ≡ some d
      rewritten-found =
          let own =
            find_row-update_row_self delivery_id again kept-id made.old.id db.deliveries made.old
              made.reopened.found in
          ap (find_row delivery_id d.id) rewritten-rows
          ∙ subst
              (λ z.
                find_row delivery_id z.id (update_row delivery_id made.old.id again db.deliveries)
                ≡ some z)
              (sym made.is_new)
              (subst
                (λ z.
                  find_row delivery_id z (update_row delivery_id made.old.id again db.deliveries)
                  ≡ some (again made.old))
                (sym (kept-id made.old)) own)

      rewritten-one : count_by is_rival db'.deliveries ≡ 1
      rewritten-one =
          ap (count_by is_rival) rewritten-rows
          ∙ omega (
            arith,
            count_by-update_row delivery_id is_rival made.old.id again db.deliveries made.old
                c.keyed.deliveries_unique made.reopened.found,
            rivals-count (made.old ∷ []) made.only,
            ap bit old-rival,
            ap bit again-rival,
          )

    only_rival :
        (db'.unit_configs ≡ db.unit_configs)
        → count_by is_rival db'.deliveries ≡ 1
        → count_by
            (is_duplicate calendar db' args.vehicle_plate unit.business_location_id key)
            db'.deliveries
          ≡ 1
    only_rival configs one =
        count_by-same _ is_rival db'.deliveries (λ x.
          is_duplicate-configs calendar db db' args.vehicle_plate unit.business_location_id key x
            configs)
        ∙ one

    -- In a consistent yard, after a registration that succeeds, for a requested time, of a stored unit and
    -- with an unused id, the answered row is stored and registered, it is the only unfinished row of its
    -- plate, location and day, and the yard stays consistent.
    pub register_delivery_effect :
        has_row delivery_id new_id db.deliveries ≡ false
        → register_delivery calendar spelling location label unit args new_id now db ≡ ok (db', d)
        → (find_delivery d.id db' ≡ some d)
          × (d.status ≡ DeliveryStatus.registered)
          × (count_by
                (is_duplicate calendar db' args.vehicle_plate unit.business_location_id key)
                db'.deliveries
              ≡ 1)
          × IsConsistent db'
    register_delivery_effect fresh h =
        elim (register_delivery-cases calendar spelling location label unit args new_id now db db' d
          c h) [
            | inl made ↦ (
              created-found fresh made,
              created-registered fresh made,
              only_rival made.configs (created-one fresh made),
              created-IsConsistent fresh made,
            )
            | inr made ↦ (
              rewritten-found made,
              ap (λ z. z.status) made.is_new ∙ again-registered made,
              only_rival (ap (λ z. z.unit_configs) made.rows) (rewritten-one made),
              rewritten-IsConsistent made,
            )
          ]
