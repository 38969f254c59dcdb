-- ===== src/RateLimit/Laws.antt =====
-- A window lets no more requests through than its limit.
use delivery_driver_manageme.Base.{
  ℕ, suc, min, ◌+◌, ◌-◌, ◌≤◌, ◌<◌, ◌==◌, ◌≡◌, refl, sym, subst, ap, ◌∙◌, inl, inr, ltb, leb, Bool,
  true, false, not, bit, Option, none, some, List, [], ◌∷◌, length, ==_refl, select, find_by,
  find_row, update_row, All, arith, Bool-cases, Option-cases, if◌then◌else◌, key-find_row,
}
use delivery_driver_manageme.RateLimit.{
  RateLimitOptions, Bucket, bucket_key, cleanup_expired_buckets, set_bucket, current_bucket,
  rate_limit, allowed_requests,
}

find_row-select :
    (test : Bucket → Bool) (i : ℕ) (xs : List Bucket) (b : Bucket)
    → find_row bucket_key i xs ≡ some b
    → test b ≡ true
    → find_row bucket_key i (select test xs) ≡ some b
unfolding find_by select
find_row-select test i [] b h t = cc
find_row-select test i (x ∷ xs) b h t = elim (Bool-cases (x.key == i)) [
  | inl here ↦
      let e : x ≡ b = ground (arith, here) in
      let t' : test x ≡ true = rw e t in rw t' (rw here (ap (λ y. some y) e))
  | inr there ↦
      let rest = find_row-select test i xs b (rw there at h) t in
      elim (Bool-cases (test x)) [ inl y ↦ rw y (rw there rest) | inr n ↦ rw n rest ]
]

find_row-cleanup_expired_buckets :
    (now i : ℕ) (xs : List Bucket) (b : Bucket)
    → find_row bucket_key i xs ≡ some b
    → now < b.reset_at
    → find_row bucket_key i (cleanup_expired_buckets now xs) ≡ some b
unfolding cleanup_expired_buckets
find_row-cleanup_expired_buckets now i xs b h lt = elim (Bool-cases (ltb (length xs) 10000)) [
  | inl small ↦ rw (small, cleanup_expired_buckets) h
  | inr big ↦
      rw (big, cleanup_expired_buckets)
        (find_row-select (λ x. not (leb x.reset_at now)) i xs b h (ground arith))
]

find_row-replace :
    (c : Bucket) (xs : List Bucket) (b : Bucket)
    → find_row bucket_key c.key xs ≡ some b
    → find_row bucket_key c.key (update_row bucket_key c.key (λ x. c) xs) ≡ some c
unfolding find_by delivery_driver_manageme.Base.update_by
find_row-replace c [] b h = cc
find_row-replace c (x ∷ xs) b h = elim (Bool-cases (x.key == c.key)) [
  | inl here ↦ rw here (rw (==_refl c.key) refl)
  | inr there ↦ rw (there, there) (find_row-replace c xs b (rw there at h))
]

find_row-set_bucket :
    (c : Bucket) (xs : List Bucket) (b : Bucket)
    → find_row bucket_key c.key xs ≡ some b
    → find_row bucket_key c.key (set_bucket c xs) ≡ some c
unfolding set_bucket
find_row-set_bucket c xs b h = rw (h, set_bucket) (find_row-replace c xs b h)

-- The bucket after one more request of its window.
abbrev counted : Bucket → Bucket
counted b = record b { count = b.count + 1 }

module _ (options : RateLimitOptions) (key now : ℕ) (buckets : List Bucket) (b : Bucket)
    (h : find_row bucket_key key buckets ≡ some b) (lt : now < b.reset_at) where
  live :
      current_bucket options key now (find_row bucket_key key (cleanup_expired_buckets now buckets))
      ≡ b
  live = rw (find_row-cleanup_expired_buckets now key buckets b h lt) (ground arith)

  bucket-rate_limit :
      find_row bucket_key key (rate_limit options key now buckets).0 ≡ some (counted b)
  unfolding rate_limit
  bucket-rate_limit =
      let own : b.key ≡ key = key-find_row bucket_key key buckets b h in
      rw live (
        subst
          (λ k.
            find_row bucket_key k (cleanup_expired_buckets now buckets) ≡ some b
            → find_row bucket_key k (set_bucket (counted b) (cleanup_expired_buckets now buckets))
              ≡ some (counted b))
          own (find_row-set_bucket (counted b) (cleanup_expired_buckets now buckets) b)
          (find_row-cleanup_expired_buckets now key buckets b h lt))

  allowed-rate_limit :
      (rate_limit options key now buckets).1.allowed ≡ not (ltb options.limit (b.count + 1))
  unfolding rate_limit
  allowed-rate_limit = rw live refl

-- Of any sequence of requests with one key that all come before the end of its bucket's window, exactly
-- as many are let through as the limit has left over, or all of them if there are fewer.
pub allowed_requests_lem :
    (options : RateLimitOptions) (key : ℕ) (times : List ℕ) (buckets : List Bucket) (b : Bucket)
    → find_row bucket_key key buckets ≡ some b
    → All (λ t. t < b.reset_at) times
    → allowed_requests options key times buckets ≡ min (length times) (options.limit - b.count)
unfolding allowed_requests
allowed_requests_lem options key [] buckets b h t = omega arith
allowed_requests_lem options key (now ∷ times) buckets b h t =
    let rest =
      allowed_requests_lem options key times (rate_limit options key now buckets).0 (counted b)
        (bucket-rate_limit options key now buckets b h t.0) t.1 in
    let first = allowed-rate_limit options key now buckets b h t.0 in ground (arith, rest, first)
