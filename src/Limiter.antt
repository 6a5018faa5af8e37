-- ===== src/Limiter.antt =====
-- The token buckets of inference_exchange/coordinator/rate_limiter.py.
use inference_exchange.Prelude.{
  Floats, ℕ, pos, ◌≡◌, refl, String, Bool, true, false, Option, none, some, List, [], ◌∷◌, ◌==◌,
  text_eq, if◌then◌else◌, delete, arith,
}

module _ (fl : Floats) where
  open fl use {Float, of_int, add, sub, mul, div, lt}

  -- Python's `min`: the first of two equal numbers.
  abbrev pub min_float : Float → Float → Float
  min_float a b = if lt b a then b else a

  pub record TokenBucket : Type 0 where
    pub max_tokens : Float
    pub refill_rate : Float
    pub tokens : Float
    pub last_refill : Float

  abbrev pub new_bucket : Float → Float → Float → TokenBucket
  new_bucket max_tokens refill_rate now = record {
    max_tokens = max_tokens;
    refill_rate = refill_rate;
    tokens = max_tokens;
    last_refill = now;
  }

  -- `remaining` of a bucket: what it holds once it is refilled.
  unfoldable pub refilled : Float → TokenBucket → Float
  refilled now b = min_float b.max_tokens (add b.tokens (mul (sub now b.last_refill) b.refill_rate))

  -- `consume`; `a >= b` is `b <= a`.
  unfoldable pub consume : Float → Float → TokenBucket → Bool × TokenBucket
  unfolding refilled
  consume amount now b =
      if fl.le amount (refilled now b)
      then (true, record b { tokens = sub (refilled now b) amount; last_refill = now })
      else (false, record b { tokens = refilled now b; last_refill = now })

  -- `_buckets`, the keys before the values.
  pub record RateLimiter : Type 0 where
    pub buckets : List (String × TokenBucket)
    pub max_rpm : Float
    pub burst : ℕ

  abbrev pub refill_rate_of : RateLimiter → Float
  refill_rate_of l = div l.max_rpm (of_int (pos 60))

  unfoldable pub bucket_of : String → List (String × TokenBucket) → Option TokenBucket
  bucket_of id [] = none
  bucket_of id ((k, b) ∷ bs) = if k == id then some b else bucket_of id bs

  unfoldable pub set_bucket :
      String → TokenBucket → List (String × TokenBucket) → List (String × TokenBucket)
  set_bucket id b [] = (id, b) ∷ []
  set_bucket id b ((k, c) ∷ bs) = if k == id then (k, b) ∷ bs else (k, c) ∷ set_bucket id b bs

  -- The bucket that a request of the consumer is taken from.
  unfoldable pub current_bucket : String → Float → RateLimiter → TokenBucket
  unfolding bucket_of
  current_bucket id now l = elim (bucket_of id l.buckets) [
    | none ↦ new_bucket (of_int (pos l.burst)) (refill_rate_of l) now
    | some b ↦ b
  ]

  -- `allow`
  unfoldable pub allow : String → Float → RateLimiter → Bool × RateLimiter
  unfolding current_bucket set_bucket consume
  allow id now l =
      let (granted, b) = consume (of_int (pos 1)) now (current_bucket id now l) in
      (granted, record l { buckets = set_bucket id b l.buckets })

  -- `remaining` of the limiter
  unfoldable pub remaining : String → Float → RateLimiter → Float
  unfolding bucket_of refilled
  remaining id now l = elim (bucket_of id l.buckets) [
    | none ↦ of_int (pos l.burst)
    | some b ↦ refilled now b
  ]

  unfoldable pub reset : String → RateLimiter → RateLimiter
  reset id l = record l { buckets = delete (λ b. b.0 == id) l.buckets }

  bucket_of-set_bucket :
      (id j : String) (b : TokenBucket) (bs : List (String × TokenBucket))
      → bucket_of j (set_bucket id b bs) ≡ (if id == j then some b else bucket_of j bs)
  unfolding bucket_of set_bucket
  bucket_of-set_bucket id j b [] = refl
  bucket_of-set_bucket id j b ((k, c) ∷ bs) = ground (arith, bucket_of-set_bucket id j b bs)

  -- A request of one consumer leaves the buckets of the others as they are.
  pub allow-others :
      (id j : String) (now : Float) (l : RateLimiter)
      → (id == j) ≡ false
      → bucket_of j (allow id now l).1.buckets ≡ bucket_of j l.buckets
  unfolding allow
  allow-others id j now l h = ground (
    arith,
    h,
    bucket_of-set_bucket id j (consume (of_int (pos 1)) now (current_bucket id now l)).1 l.buckets,
  )
