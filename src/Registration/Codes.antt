-- ===== src/Registration/Codes.antt =====
-- The number of a code can be read back, so codes with other numbers differ.
use delivery_driver_manageme.Base.{
  ℕ, ◌≡◌, refl, ap, ◌∙◌, true, some, [], ◌∷◌, ◌++◌, length, ==_refl,
}
use delivery_driver_manageme.Schema.{Text}
use delivery_driver_manageme.Registration.{
  Spelling, slice, registration_code_prefix, format_registration_code, starts_with, code_number,
}
use delivery_driver_manageme.Registration.Decimal.{decimal, pad_start, number, number-pad_start}

slice-++ : (prefix text : Text) → slice (length prefix) (prefix ++ text) ≡ text
unfolding slice
slice-++ [] text = refl
slice-++ (c ∷ cs) text = slice-++ cs text

starts_with-++ : (prefix text : Text) → starts_with prefix (prefix ++ text) ≡ true
unfolding starts_with
starts_with-++ [] text = refl
starts_with-++ (c ∷ cs) text = rw (==_refl c) (starts_with-++ cs text)

-- A formatted code begins with the prefix of its location, unit and day, and the number that is read
-- behind the prefix is the number that it was made of.
pub code_number-format_registration_code :
    (spelling : Spelling) (location : Text) (unit_config_id key n : ℕ)
    → let prefix = registration_code_prefix spelling location unit_config_id key in
      let code = format_registration_code spelling location unit_config_id key n in
      (starts_with prefix code ≡ true) × (code_number spelling prefix code ≡ some n)
unfolding format_registration_code code_number
code_number-format_registration_code spelling location unit_config_id key n =
    let prefix = registration_code_prefix spelling location unit_config_id key in
    let padded = pad_start 3 (decimal n) in
    (
      starts_with-++ prefix padded,
      ap (number spelling.other_number) (slice-++ prefix padded)
          ∙ number-pad_start spelling.other_number 3 n,
    )
