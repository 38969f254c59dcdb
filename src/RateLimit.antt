-- ===== src/RateLimit.antt =====
-- backend/src/middleware/rateLimit.ts: requests per key and window of time.
-- `Math.ceil` of a quotient is written out; the response's texts are not modelled.
pub mod Laws
use delivery_driver_manageme.Base.{
  ℕ, suc, ◌+◌, ◌-◌, ◌*◌, ◌/◌, max, ltb, leb, Bool, true, false, not, if◌then◌else◌, Option, none,
  some, List, [], ◌∷◌, ◌++◌, length, select, find_row, update_row, bit,
}

pub record RateLimitOptions : Type 0 where
  pub window_ms : ℕ
  pub limit : ℕ

-- An entry of the `Map`: its key, and the bucket.
pub record Bucket : Type 0 where
  pub key : ℕ
  pub count : ℕ
  pub reset_at : ℕ

abbrev pub bucket_key : Bucket → ℕ
bucket_key b = b.key

unfoldable pub cleanup_expired_buckets : ℕ → List Bucket → List Bucket
cleanup_expired_buckets now buckets =
    if ltb (length buckets) 10000 then buckets else select (λ b. not (leb b.reset_at now)) buckets

-- `buckets.set(key, bucket)`
unfoldable pub set_bucket : Bucket → List Bucket → List Bucket
set_bucket bucket buckets = elim (find_row bucket_key bucket.key buckets) [
  | none ↦ buckets ++ (bucket ∷ [])
  | some old ↦ update_row bucket_key bucket.key (λ b. bucket) buckets
]

abbrev fresh_bucket : RateLimitOptions → ℕ → ℕ → Bucket
fresh_bucket options key now = record { key = key; count = 0; reset_at = now + options.window_ms }

abbrev pub current_bucket : RateLimitOptions → ℕ → ℕ → Option Bucket → Bucket
current_bucket options key now none = fresh_bucket options key now
current_bucket options key now (some b) =
    if ltb now b.reset_at then b else fresh_bucket options key now

-- The headers of the answer, and whether `next` is called.
pub record Answer : Type 0 where
  pub allowed : Bool
  pub remaining : ℕ
  pub reset : ℕ
  pub retry_after_seconds : Option ℕ

abbrev pub ceil_seconds : ℕ → ℕ
ceil_seconds ms = (ms + 999) / 1000

unfoldable pub rate_limit : RateLimitOptions → ℕ → ℕ → List Bucket → List Bucket × Answer
rate_limit options key now buckets =
    let cleaned = cleanup_expired_buckets now buckets in
    let found = current_bucket options key now (find_row bucket_key key cleaned) in
    let bucket = record found { count = found.count + 1 } in
    let over = ltb options.limit bucket.count in
    (
      set_bucket bucket cleaned,
      record {
        allowed = not over;
        remaining = options.limit - bucket.count;
        reset = ceil_seconds bucket.reset_at;
        retry_after_seconds =
            if over then some (max 1 (ceil_seconds (bucket.reset_at - now))) else none;
      },
    )

-- How many of a sequence of requests with one key are let through.
unfoldable pub allowed_requests : RateLimitOptions → ℕ → List ℕ → List Bucket → ℕ
allowed_requests options key [] buckets = 0
allowed_requests options key (now ∷ times) buckets =
    let (buckets', answer) = rate_limit options key now buckets in
    bit answer.allowed + allowed_requests options key times buckets'
