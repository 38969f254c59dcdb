-- ===== src/Registration.antt =====
-- backend/src/services/registrationSequence.ts: the codes of registrations.
-- `Spelling` has what the code reads of texts that are numbers elsewhere, `normalize('NFD')`, and what
-- `Number` makes of a text that is not all digits (none for NaN).
pub mod Decimal
pub mod Codes
pub mod Fresh
use delivery_driver_manageme.Base.{
  ℕ, suc, zero, ◌+◌, ◌-◌, ◌==◌, ltb, leb, max, Bool, true, false, not, ◌&&◌, ◌||◌, if◌then◌else◌,
  same, or_else, Option, none, some, List, [], ◌∷◌, ◌++◌, map, length, select, find_by, update_by,
}
use delivery_driver_manageme.Schema.{Text, Delivery, RegistrationSequence}
use delivery_driver_manageme.Store.{Db}
use delivery_driver_manageme.Tickets.{Calendar, is_within_day}
use delivery_driver_manageme.Registration.Decimal.{is_digit, decimal, pad_start, number}

pub record Spelling : Type 0 where
  pub id_text : ℕ → Text
  pub year : ℕ → Text
  pub month : ℕ → Text
  pub day : ℕ → Text
  pub nfd : Text → Text
  pub other_number : Text → Option ℕ

-- `text.slice(count)`
unfoldable pub slice : ℕ → Text → Text
slice zero text = text
slice (suc count) [] = []
slice (suc count) (c ∷ cs) = slice count cs

-- `text.slice(-count)`
abbrev pub slice_end : ℕ → Text → Text
slice_end count text = slice (length text - count) text

abbrev is_between : ℕ → ℕ → ℕ → Bool
is_between low high c = leb low c && leb c high

abbrev is_combining : ℕ → Bool
is_combining = is_between 768 879

abbrev is_alphanumeric : ℕ → Bool
is_alphanumeric c = is_between 97 122 c || is_between 65 90 c || is_digit c

-- `toUpperCase` of an ASCII character.
abbrev upper_ascii : ℕ → ℕ
upper_ascii c = if is_between 97 122 c then c - 32 else c

unfoldable pub normalize_code_segment : Spelling → Text → Text
normalize_code_segment spelling text =
    map upper_ascii
      (select is_alphanumeric (select (λ c. not (is_combining c)) (spelling.nfd text)))

-- `a || b` between texts.
abbrev pub or_text : Text → Text → Text
or_text [] b = b
or_text (c ∷ cs) b = c ∷ cs

abbrev date_compact : Spelling → ℕ → Text
date_compact spelling key = slice 2 (spelling.year key) ++ spelling.month key ++ spelling.day key

abbrev loc_text : Text
loc_text = 76 ∷ 79 ∷ 67 ∷ []

abbrev unit_text : Text
unit_text = 85 ∷ 78 ∷ 73 ∷ 84 ∷ []

-- `location` is the code of the business location.
unfoldable pub registration_code_prefix : Spelling → Text → ℕ → ℕ → Text
registration_code_prefix spelling location unit_config_id key =
    or_text (normalize_code_segment spelling location) loc_text
    ++ or_text (slice_end 4 (normalize_code_segment spelling (spelling.id_text unit_config_id)))
        unit_text
    ++ date_compact spelling key

unfoldable pub format_registration_code : Spelling → Text → ℕ → ℕ → ℕ → Text
format_registration_code spelling location unit_config_id key n =
    registration_code_prefix spelling location unit_config_id key ++ pad_start 3 (decimal n)

unfoldable pub starts_with : Text → Text → Bool
starts_with [] text = true
starts_with (p ∷ ps) [] = false
starts_with (p ∷ ps) (c ∷ cs) = p == c && starts_with ps cs

-- The `where` of the existing codes.
unfoldable pub has_code_of : Calendar → Text → ℕ → ℕ → Delivery → Bool
has_code_of calendar prefix unit_config_id key d =
    same d.unit_config_id (some unit_config_id)
    && is_within_day calendar key d.created_at
    && starts_with prefix d.registration_code

-- The number behind the prefix; NaN does not count.
unfoldable pub code_number : Spelling → Text → Text → Option ℕ
code_number spelling prefix code = number spelling.other_number (slice (length prefix) code)

unfoldable pub max_number : Spelling → Text → ℕ → List Delivery → ℕ
max_number spelling prefix highest [] = highest
max_number spelling prefix highest (d ∷ ds) =
    max_number spelling prefix
      (max highest (or_else (code_number spelling prefix d.registration_code) 0)) ds

unfoldable pub get_existing_max_registration_number : Calendar → Spelling → Db → Text → ℕ → ℕ → ℕ
get_existing_max_registration_number calendar spelling db location unit_config_id key =
    let prefix = registration_code_prefix spelling location unit_config_id key in
    max_number spelling prefix 0
      (select (has_code_of calendar prefix unit_config_id key) db.deliveries)

unfoldable pub is_counter_of : ℕ → ℕ → RegistrationSequence → Bool
is_counter_of key unit_config_id q =
    q.registration_date == key && same q.unit_config_id (some unit_config_id)

abbrev pub find_counter : ℕ → ℕ → Db → Option RegistrationSequence
find_counter key unit_config_id db =
    find_by (is_counter_of key unit_config_id) db.registration_sequences

abbrev pub increment : RegistrationSequence → RegistrationSequence
increment q = record q { next_number = q.next_number + 1 }

abbrev pub new_counter : ℕ → ℕ → ℕ → ℕ → RegistrationSequence
new_counter key unit unit_config_id next = record {
  registration_date = key;
  receiving_unit = unit;
  unit_config_id = some unit_config_id;
  next_number = next;
}

-- The `upsert`, and the `nextNumber` that it selects.
unfoldable pub upsert_counter : Db → ℕ → ℕ → ℕ → ℕ → Db × ℕ
upsert_counter db key unit unit_config_id first = elim (find_counter key unit_config_id db) [
  | none ↦ (
    record db {
      registration_sequences =
          new_counter key unit unit_config_id first ∷ db.registration_sequences;
    },
    first,
  )
  | some q ↦ (
    record db {
      registration_sequences =
          update_by (is_counter_of key unit_config_id) increment db.registration_sequences;
    },
    q.next_number + 1,
  )
]

unfoldable pub reserve_registration_code : Calendar → Spelling → Db → ℕ → Text → ℕ → ℕ → Db × Text
reserve_registration_code calendar spelling db unit_config_id location unit created_at =
    let key = calendar.vn_date_key created_at in
    let existing_max =
      get_existing_max_registration_number calendar spelling db location unit_config_id key in
    let (db', next) = upsert_counter db key unit unit_config_id (existing_max + 2) in
    (db', format_registration_code spelling location unit_config_id key (next - 1))
