-- ===== src/RateLimit/Samples.antt =====
-- The law of the token bucket with whole numbers for `float64`.
use Prim.Native.Nat.{min}
use kraclaw.Prelude.{ℕ, suc, ◌+◌, ◌*◌, ◌-◌, ◌/◌, leb, [], ◌∷◌, map, ◌≡◌, refl, arith}
use kraclaw.RateLimit.{Float64, new_token_bucket}
use kraclaw.RateLimit.Laws.{IsExact, bursts, second, bursts-new_token_bucket}

-- A number stands for itself.
abbrev floats : Float64
floats = record {
  of_int = λ n. n;
  add = λ a b. a + b;
  sub = λ a b. a - b;
  mul = λ a b. a * b;
  min = λ a b. min a b;
  ge = λ a b. leb b a;
  seconds_since = λ now last. (now - last) / second;
}

exact : IsExact floats
exact = record {
  sub_one = λ n le. omega arith;
  ge_one = λ n le. ground arith;
  ge_zero = refl;
  min_exact = λ m n a b. refl;
  add_nothing = λ k c t a b. rw (same t) (omega arith);
  add_second = λ k c t a. rw (later t) (omega arith);
}
  where
    same : (t : ℕ) → t - t ≡ 0
    same t = omega arith

    later : (t : ℕ) → (t + second) - t ≡ second
    later t = omega arith

bursts-new_token_bucket_example :
    bursts floats (new_token_bucket floats 2 100) 100 (0 ∷ 4 ∷ [])
    ≡ map (λ n. min (suc n) 2) (0 ∷ 4 ∷ [])
bursts-new_token_bucket_example =
    bursts-new_token_bucket floats exact 2 100 (0 ∷ 4 ∷ []) (omega arith)
