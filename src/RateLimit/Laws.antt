-- ===== src/RateLimit/Laws.antt =====
-- How many messages a token bucket lets pass (internal/orchestrator/rate_limit.go).
use Prim.Native.Nat.{min}
use kraclaw.Prelude.{
  ℕ, zero, suc, ◌+◌, ◌-◌, ◌≤◌, ◌^◌, Bool, true, false, List, [], ◌∷◌, map, if◌then◌else◌, ◌≡◌, refl,
  ap, ap₂, ◌∙◌, arith,
}
use kraclaw.RateLimit.{Float64, TokenBucket, new_token_bucket, refill, try_acquire}

-- A second, in nanoseconds.
abbrev pub second : ℕ
second = 1_000_000_000

-- Whole numbers up to 2^53 have exact differences, sums, minima and comparisons in `float64`; zero
-- seconds times a capacity is zero, and one second times it is the capacity.
pub record IsExact (float : Float64) : Type 0 where
  pub sub_one :
      (n : ℕ) → suc n ≤ 2 ^ 53 → float.sub (float.of_int (suc n)) (float.of_int 1) ≡ float.of_int n
  pub ge_one : (n : ℕ) → suc n ≤ 2 ^ 53 → float.ge (float.of_int (suc n)) (float.of_int 1) ≡ true
  pub ge_zero : float.ge (float.of_int 0) (float.of_int 1) ≡ false
  pub min_exact :
      (m n : ℕ)
      → m ≤ 2 ^ 53
      → n ≤ 2 ^ 53
      → float.min (float.of_int m) (float.of_int n) ≡ float.of_int (min m n)
  pub add_nothing :
      (k c t : ℕ)
      → k ≤ 2 ^ 53
      → c ≤ 2 ^ 53
      → float.add (float.of_int k) (float.mul (float.seconds_since t t) (float.of_int c))
        ≡ float.of_int k
  pub add_second :
      (k c t : ℕ)
      → k + c ≤ 2 ^ 53
      → float.add (float.of_int k) (float.mul (float.seconds_since (t + second) t) (float.of_int c))
        ≡ float.of_int (k + c)

-- Calls at one time, and how many were let pass.
unfoldable pub burst : Float64 → TokenBucket → ℕ → ℕ → TokenBucket × ℕ
burst float tb now zero = (tb, 0)
burst float tb now (suc n) =
    let (tb', passed) = try_acquire float tb now in
    let (tb'', m) = burst float tb' now n in (tb'', if passed then suc m else m)

-- Such bursts a second apart, each of one call more than the number in the list.
unfoldable pub bursts : Float64 → TokenBucket → ℕ → List ℕ → List ℕ
bursts float tb now [] = []
bursts float tb now (n ∷ ns) =
    let (tb', m) = burst float tb now (suc n) in m ∷ bursts float tb' (now + second) ns

module _ (float : Float64) (exact : IsExact float) where
  abbrev bucket_with : ℕ → ℕ → ℕ → TokenBucket
  bucket_with capacity k now = record {
    capacity = capacity;
    tokens = float.of_int k;
    last_refill_at = now;
  }

  -- A call where the refill leaves k tokens.
  abbrev after : ℕ → ℕ → ℕ → TokenBucket × Bool
  after capacity zero now = (bucket_with capacity 0 now, false)
  after capacity (suc k) now = (bucket_with capacity k now, true)

  try_acquire_exact :
      (capacity j k last now : ℕ)
      → k ≤ 2 ^ 53
      → refill float (bucket_with capacity j last) now ≡ float.of_int k
      → try_acquire float (bucket_with capacity j last) now ≡ after capacity k now
  unfolding try_acquire
  try_acquire_exact capacity j zero last now small e = rw (e, exact.ge_zero) refl
  try_acquire_exact capacity j (suc k) last now small e =
      rw (e, exact.ge_one k small, exact.sub_one k small) refl

  refill_at_once :
      (capacity k now : ℕ)
      → k ≤ capacity
      → capacity ≤ 2 ^ 53
      → refill float (bucket_with capacity k now) now ≡ float.of_int k
  unfolding refill
  refill_at_once capacity k now le small =
      ap (float.min (float.of_int capacity))
        (exact.add_nothing k capacity now (omega (arith, le, small)) small)
      ∙ exact.min_exact capacity k small (omega (arith, le, small))
      ∙ ap float.of_int (omega (arith, le))

  refill_after_second :
      (capacity k now : ℕ)
      → k ≤ capacity
      → capacity ≤ 2 ^ 52
      → refill float (bucket_with capacity k now) (now + second) ≡ float.of_int capacity
  unfolding refill
  refill_after_second capacity k now le small =
      ap (float.min (float.of_int capacity))
        (exact.add_second k capacity now (omega (arith, le, small)))
      ∙ exact.min_exact capacity (k + capacity) (omega (arith, small)) (omega (arith, le, small))
      ∙ ap float.of_int (omega (arith, le))

  -- What a burst leaves of k tokens, and how many calls it lets pass.
  abbrev spent : ℕ → ℕ → ℕ → ℕ → TokenBucket × ℕ
  spent capacity k now n = (bucket_with capacity (k - n) now, min n k)

  spent_none : (capacity now n : ℕ) → spent capacity 0 now n ≡ spent capacity 0 now (suc n)
  spent_none capacity now n =
      ap₂ (λ j m. (bucket_with capacity j now, m)) (omega arith) (omega arith)

  spent_more :
      (capacity k now n : ℕ)
      → (bucket_with capacity (k - n) now, suc (min n k)) ≡ spent capacity (suc k) now (suc n)
  spent_more capacity k now n =
      ap₂ (λ j m. (bucket_with capacity j now, m)) (omega arith) (omega arith)

  burst_refilled :
      (capacity j k last now n : ℕ)
      → k ≤ capacity
      → capacity ≤ 2 ^ 53
      → refill float (bucket_with capacity j last) now ≡ float.of_int k
      → ((i : ℕ)
          → i ≤ capacity
          → burst float (bucket_with capacity i now) now n ≡ spent capacity i now n)
      → burst float (bucket_with capacity j last) now (suc n) ≡ spent capacity k now (suc n)
  unfolding burst
  burst_refilled capacity j zero last now n le small e rest =
      rw (try_acquire_exact capacity j 0 last now (omega arith) e, rest 0 (omega arith))
        (spent_none capacity now n)
  burst_refilled capacity j (suc k) last now n le small e rest =
      rw
        (
          try_acquire_exact capacity j (suc k) last now (omega (arith, le, small)) e,
          rest k (omega (arith, le)),
        )
        (spent_more capacity k now n)

  burst_at_once :
      (capacity now n k : ℕ)
      → k ≤ capacity
      → capacity ≤ 2 ^ 53
      → burst float (bucket_with capacity k now) now n ≡ spent capacity k now n
  unfolding burst
  burst_at_once capacity now zero k le small =
      ap₂ (λ j m. (bucket_with capacity j now, m)) (omega arith) (omega arith)
  burst_at_once capacity now (suc n) k le small =
      burst_refilled capacity k k now now n le small (refill_at_once capacity k now le small)
        (λ i le'. burst_at_once capacity now n i le' small)

  burst_full :
      (capacity j last now n : ℕ)
      → capacity ≤ 2 ^ 53
      → refill float (bucket_with capacity j last) now ≡ float.of_int capacity
      → burst float (bucket_with capacity j last) now (suc n) ≡ spent capacity capacity now (suc n)
  burst_full capacity j last now n small e =
      burst_refilled capacity j capacity last now n (omega arith) small e
        (λ i le. burst_at_once capacity now n i le small)

  bursts_full :
      (capacity j last now : ℕ) (ns : List ℕ)
      → capacity ≤ 2 ^ 52
      → refill float (bucket_with capacity j last) now ≡ float.of_int capacity
      → bursts float (bucket_with capacity j last) now ns ≡ map (λ n. min (suc n) capacity) ns
  unfolding bursts
  bursts_full capacity j last now [] small e = refl
  bursts_full capacity j last now (n ∷ ns) small e =
      rw (burst_full capacity j last now n (omega (arith, small)) e) (
        ap (λ ms. min (suc n) capacity ∷ ms)
          (bursts_full capacity (capacity - suc n) now (now + second) ns small
            (refill_after_second capacity (capacity - suc n) now (omega arith) small)))

  -- Where arithmetic on whole numbers up to 2^53 is exact: of bursts of calls, the first when the
  -- bucket is made and each other a second behind the last, each of at least one call, a new bucket
  -- with a capacity of at most 2^52 lets pass of every burst as many as its capacity, or all.
  pub bursts-new_token_bucket :
      (capacity now : ℕ) (ns : List ℕ)
      → capacity ≤ 2 ^ 52
      → bursts float (new_token_bucket float capacity now) now ns
        ≡ map (λ n. min (suc n) capacity) ns
  unfolding new_token_bucket
  bursts-new_token_bucket capacity now ns small =
      bursts_full capacity capacity now now ns small
        (refill_at_once capacity capacity now (omega arith) (omega (arith, small)))
