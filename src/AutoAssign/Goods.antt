-- ===== src/AutoAssign/Goods.antt =====
-- The order in which a slot considers goods.
use delivery_driver_manageme.Base.{◌≡◌, Bool, false, List, [], ◌∷◌, ◌++◌, All}
use delivery_driver_manageme.Schema.{goods_eq}

module _ {ℓ} {A : Type ℓ} (favoured : A → Bool) where
  -- Once an element is not favoured, no later one is.
  abbrev pub FavouredFirst : List A → Type 0
  FavouredFirst [] = Unit {0}
  FavouredFirst (x ∷ xs) =
      (favoured x ≡ false → All (λ y. favoured y ≡ false) xs) × FavouredFirst xs

  All-append : (P : A → Type 0) (xs ys : List A) → All P xs → All P ys → All P (xs ++ ys)
  All-append P [] ys h k = k
  All-append P (x ∷ xs) ys h k = (h.0, All-append P xs ys h.1 k)
