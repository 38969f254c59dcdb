-- ===== src/Register/Laws.antt =====
-- What a registration that succeeds has done.
use delivery_driver_manageme.Base.{
  ℕ, ◌≡◌, refl, ap, sym, subst, ◌∙◌, ◌⊎◌, Bool, true, false, not, ◌||◌, is_some, any, Option, none,
  some, List, [], ◌∷◌, inl, inr, arith, All, All-map, All-find_row, select-All, Bool-cases,
  Option-cases, includes, or_else, Result, ok, thrown, failed, conflict, bad_request, require-ok,
  ok-injective, ◌>>=◌, ◌>>◌, ◌===◌, require,
}
use delivery_driver_manageme.Schema.{Text, DeliveryStatus, status_eq, UnitConfig, Delivery}
use delivery_driver_manageme.Store.{Db, delivery_id, find_delivery, update_delivery}
use delivery_driver_manageme.Consistency.{IsConsistent}
use delivery_driver_manageme.Tickets.{Calendar}
use delivery_driver_manageme.CheckIn.{same_text}
use delivery_driver_manageme.Registration.{
  Spelling, reserve_registration_code, upsert_counter, find_counter,
}
use delivery_driver_manageme.Register.{
  RegisterArgs, duplicate_day, finished_statuses, is_duplicate, find_duplicate_registration,
  open_registration, is_blocked_by, fits, is_today, registration_data, new_delivery,
  create_delivery, store_registration, register_delivery,
}

-- A row that may be registered again: stored, registered and not checked in.
pub record IsReopened (db : Db) (e : Delivery) : Type 0 where
  pub found : find_delivery e.id db ≡ some e
  pub registered : e.status ≡ DeliveryStatus.registered
  pub absent : e.checkin_time ≡ none

abbrev IsMatch : Db → Delivery → Type 0
IsMatch db d = (find_delivery d.id db ≡ some d) × (includes finished_statuses d.status ≡ false)

find_duplicate_registration-IsMatch :
    (calendar : Calendar) (db : Db) (plate : Text) (location key : ℕ)
    → IsConsistent db
    → All (IsMatch db) (find_duplicate_registration calendar db plate location key)
unfolding find_duplicate_registration is_duplicate
find_duplicate_registration-IsMatch calendar db plate location key c =
    select-All (IsMatch db) _ db.deliveries (
      All-map (λ d. find_delivery d.id db ≡ some d) _ db.deliveries
        (λ d found t. (found, ground (arith, t)))
        (All-find_row delivery_id db.deliveries c.keyed.deliveries_unique))

pub open_registration-cases :
    (db : Db) (ms : List Delivery)
    → All (IsMatch db) ms
    → (open_registration db ms ≡ thrown conflict)
      ⊎ (((ms ≡ []) × (open_registration db ms ≡ ok none))
          ⊎ ((e : Delivery) × (ms ≡ e ∷ [])
              × (open_registration db ms ≡ ok (some e))
              × IsReopened db e))
unfolding open_registration
open_registration-cases db [] h = inr (inl (refl, refl))
open_registration-cases db (d ∷ d' ∷ ds) h = inl refl
open_registration-cases db (d ∷ []) h =
    elim (Bool-cases (not (d.status === DeliveryStatus.registered) || is_some d.checkin_time)) [
      | inl taken ↦ inl (rw (h.0.0, open_registration) (rw (h.0.1, taken) refl))
      | inr free ↦ inr (
          inr (
            d,
            refl,
            rw (h.0.0, open_registration) (rw (h.0.1, free) refl),
            record {
              found = h.0.0;
              registered =
                  (status_eq.eq_iff d.status DeliveryStatus.registered).0 (ground (arith, free));
              absent = elim (Option-cases d.checkin_time) [
                | inl none_yet ↦ none_yet
                | inr (t, e) ↦ ground (arith, free, e)
              ];
            },
          ))
    ]

abbrev SameRest : Db → Db → Type 0
SameRest db db' =
    (db'.deliveries ≡ db.deliveries) × (db'.slots ≡ db.slots) × (db'.unit_configs ≡ db.unit_configs)

reserve_registration_code-SameRest :
    (calendar : Calendar) (spelling : Spelling) (db : Db) (unit_config_id : ℕ) (location : Text)
    (unit now : ℕ)
    → SameRest db
        (reserve_registration_code calendar spelling db unit_config_id location unit now).0
unfolding reserve_registration_code upsert_counter
reserve_registration_code-SameRest calendar spelling db unit_config_id location unit now =
    elim (Option-cases (find_counter (calendar.vn_date_key now) unit_config_id db)) [
      | inl e ↦ rw (e, reserve_registration_code, upsert_counter) (refl, refl, refl)
      | inr (q, e) ↦ rw (e, reserve_registration_code, upsert_counter) (refl, refl, refl)
    ]

module _ (calendar : Calendar) (spelling : Spelling) (location : Text) (label : ℕ)
    (unit : UnitConfig) (args : RegisterArgs) (new_id now : ℕ) (db : Db) where
  abbrev pub matches : List Delivery
  matches =
      find_duplicate_registration calendar db args.vehicle_plate unit.business_location_id
        (duplicate_day calendar args)

  abbrev store : Option Delivery → Result (Db × Delivery)
  store = store_registration calendar spelling location label unit args new_id now db

  -- A new row.
  pub record IsCreated (db' : Db) (d : Delivery) : Type 0 where
    pub alone : matches ≡ []
    pub fitting : fits calendar db args unit.id none ≡ true
    pub code : Text
    pub is_new : d ≡ new_delivery args unit.id new_id now code
    pub unused : any (λ (x : Delivery). same_text x.registration_code code) db.deliveries ≡ false
    pub rows : db'.deliveries ≡ d ∷ db.deliveries
    pub slots : db'.slots ≡ db.slots
    pub configs : db'.unit_configs ≡ db.unit_configs

  -- The registration that was there, written again.
  pub record IsRewritten (db' : Db) (d : Delivery) : Type 0 where
    pub old : Delivery
    pub only : matches ≡ old ∷ []
    pub reopened : IsReopened db old
    pub fitting : fits calendar db args unit.id (some old) ≡ true
    pub is_new : d ≡ registration_data args unit.id now old
    pub rows : db' ≡ update_delivery old.id (registration_data args unit.id now) db

  abbrev blocked : Bool
  blocked =
      any
        (is_blocked_by calendar args.vehicle_plate unit.business_location_id
          (calendar.vn_date_key (or_else args.requested_time now)))
        db.histories

  abbrev after_open : Option Delivery → Result (Db × Delivery)
  after_open existing =
      require (not blocked) conflict
      >> (require (fits calendar db args unit.id existing) conflict >> store existing)

  after_checks :
      (existing : Option Delivery) (db' : Db) (d : Delivery)
      → open_registration db matches ≡ ok existing
      → register_delivery calendar spelling location label unit args new_id now db ≡ ok (db', d)
      → (fits calendar db args unit.id existing ≡ true) × (store existing ≡ ok (db', d))
  unfolding register_delivery
  after_checks existing db' d opened h =
      let h' : after_open existing ≡ ok (db', d) = sym (ap (λ r. r >>= after_open) opened) ∙ h in
      require-ok (fits calendar db args unit.id existing) conflict (store existing) (db', d)
        (require-ok (not blocked) conflict
          (require (fits calendar db args unit.id existing) conflict >> store existing) (db', d)
          h').1

  abbrev reserved : Db × Text
  reserved = reserve_registration_code calendar spelling db unit.id location args.receiving_unit now

  kept : SameRest db reserved.0
  kept =
      reserve_registration_code-SameRest calendar spelling db unit.id location args.receiving_unit
        now

  store_new :
      (db' : Db) (d : Delivery)
      → matches ≡ []
      → fits calendar db args unit.id none ≡ true
      → store none ≡ ok (db', d)
      → IsCreated db' d
  unfolding store_registration create_delivery new_delivery
  store_new db' d alone fitting h =
      let created = new_delivery args unit.id new_id now reserved.1 in
      let checked =
        require-ok (is_today calendar args now) bad_request
          (create_delivery created label reserved.0) (db', d) h in
      elim (Bool-cases
        (any (λ (x : Delivery). same_text x.registration_code reserved.1) reserved.0.deliveries)) [
          | inl clash ↦ let h' : failed ≡ ok (db', d) = rw clash at checked.1 in cc
          | inr free ↦
              let same = ok-injective _ (db', d) (rw free at checked.1) in
              record {
                alone = alone;
                fitting = fitting;
                code = reserved.1;
                is_new = sym (ap (λ z. z.1) same);
                unused =
                    subst
                      (λ ds.
                        any (λ (x : Delivery). same_text x.registration_code reserved.1) ds ≡ false)
                      kept.0 free;
                rows =
                    sym (ap (λ z. z.0.deliveries) same)
                    ∙ ap (λ ds. created ∷ ds) kept.0
                    ∙ ap (λ x. x ∷ db.deliveries) (ap (λ z. z.1) same);
                slots = sym (ap (λ z. z.0.slots) same) ∙ kept.1;
                configs = sym (ap (λ z. z.0.unit_configs) same) ∙ kept.2;
              }
        ]

  store_old :
      (e : Delivery) (db' : Db) (d : Delivery)
      → matches ≡ e ∷ []
      → IsReopened db e
      → fits calendar db args unit.id (some e) ≡ true
      → store (some e) ≡ ok (db', d)
      → IsRewritten db' d
  unfolding store_registration
  store_old e db' d only reopened fitting h =
      let again = registration_data args unit.id now e in
      let written = update_delivery e.id (registration_data args unit.id now) db in
      let same =
        ok-injective (written, again) (db', d)
          (require-ok (is_today calendar args now) bad_request (ok (written, again)) (db', d)
            h).1 in
      record {
        old = e;
        only = only;
        reopened = reopened;
        fitting = fitting;
        is_new = sym (ap (λ z. z.1) same);
        rows = sym (ap (λ z. z.0) same);
      }

  -- A registration that succeeds is a new row, or the one open registration written again.
  pub register_delivery-cases :
      (db' : Db) (d : Delivery)
      → IsConsistent db
      → register_delivery calendar spelling location label unit args new_id now db ≡ ok (db', d)
      → IsCreated db' d ⊎ IsRewritten db' d
  unfolding register_delivery
  register_delivery-cases db' d c h =
      elim (open_registration-cases db matches (
        find_duplicate_registration-IsMatch calendar db args.vehicle_plate unit.business_location_id
          (duplicate_day calendar args) c)) [
            | inl refused ↦
                let h' : thrown conflict ≡ ok (db', d) =
                  sym (ap (λ r. r >>= after_open) refused) ∙ h in
                cc
            | inr (inl (alone, opened)) ↦
                let (fitting, stored) = after_checks none db' d opened h in
                inl (store_new db' d alone fitting stored)
            | inr (inr (e, only, opened, reopened)) ↦
                let (fitting, stored) = after_checks (some e) db' d opened h in
                inr (store_old e db' d only reopened fitting stored)
          ]
