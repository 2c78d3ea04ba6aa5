-- ===== src/JoinCost/Index.antt =====
-- The place of a pair in the block of EST_JoinCostCache.cc: a row for each larger index.
use native.Mathlib.Decide.{dec_lt}
use speech_synthesis_system.Base.{
  ℕ, zero, suc, ◌+◌, ◌-◌, ◌*◌, ◌/◌, ◌%◌, ◌^◌, ◌≤◌, ◌<◌, ◌≡◌, ◌⊎◌, inl, inr, arith, ap,
}
use speech_synthesis_system.JoinCost.Cache.{index, cachelen_of}

-- The number of pairs below `n`.
unfoldable pub pairs : ℕ → ℕ
pairs zero = 0
pairs (suc n) = pairs n + n

pairs-suc : (n : ℕ) → 2 * pairs (suc n) ≡ suc n * n
unfolding pairs
pairs-suc zero = omega arith
pairs-suc (suc n) = omega (arith, pairs-suc n)

pub pairs_closed : (n : ℕ) → 2 * pairs n + n ≡ n * n
unfolding pairs
pairs_closed zero = omega arith
pairs_closed (suc n) = omega (arith, pairs-suc n)

-- Whole rows lie between the row of `b` and that of any larger index.
pub pairs_row : (b n : ℕ) → b < n → pairs b + b ≤ pairs n
unfolding pairs
pairs_row b zero h = absurd (omega arith)
pairs_row b (suc n) h = elim (dec_lt b n) [
  | yes l ↦ omega (arith, pairs_row b n l)
  | no l ↦ let e : b ≡ n = omega arith in rw e (omega arith)
]

lt_cases : (a b : ℕ) → (a < b) ⊎ ((b < a) ⊎ (a ≡ b))
lt_cases a b = elim (dec_lt a b) [
  | yes l ↦ inl l
  | no l ↦ elim (dec_lt b a) [ yes l' ↦ inr (inl l') | no l' ↦ inr (inr (omega arith)) ]
]

pub pairs_limit : (b : ℕ) → b ≤ 65536 → 2 * pairs b ≤ 65536 * 65535
pairs_limit b h = elim (lt_cases b 65536) [
  | inl l ↦ omega (arith, pairs_row b 65536 l, pairs_closed 65536)
  | inr (inl l) ↦ absurd (omega arith)
  | inr (inr e) ↦ rw e (omega (arith, pairs_closed 65536))
]

pairs_pred : (b : ℕ) → b * (b - 1) ≡ 2 * pairs b
unfolding pairs
pairs_pred zero = omega arith
pairs_pred (suc b) = let e : suc b - 1 ≡ b = omega arith in rw e (omega (arith, pairs-suc b))

-- Up to 65536 instances no 32-bit operation of the index wraps round.
pub index-pairs : (b a : ℕ) → a < b → b ≤ 65536 → index b a ≡ pairs b + a
unfolding index
index-pairs b a h k =
    let e : (b + 2 ^ 32 - 1) % 2 ^ 32 ≡ b - 1 = omega arith in
    rw (e, pairs_pred b) (omega (arith, pairs_limit b k))

square_limit : (n : ℕ) → n ≤ 65535 → n * n ≤ 65535 * 65535
square_limit n h = grind arith

-- The block that the constructor asks for is short of the pairs by half the instances.
pub cachelen-pairs : (n : ℕ) → 2 ≤ n → n ≤ 65535 → cachelen_of n + (n + 1) / 2 ≡ pairs n
unfolding cachelen_of
cachelen-pairs n h k =
    omega (arith, pairs_closed n, pairs_row (n - 1) n (omega arith), square_limit n k)

-- Two pairs have one place only if they are the same.
pub index_injective :
    (a b a' b' : ℕ)
    → a < b
    → a' < b'
    → b ≤ 65536
    → b' ≤ 65536
    → index b a ≡ index b' a'
    → (a ≡ a') × (b ≡ b')
index_injective a b a' b' h h' k k' e =
    let e' : pairs b + a ≡ pairs b' + a' =
      omega (arith, index-pairs b a h k, index-pairs b' a' h' k') in
    elim (lt_cases b b') [
      | inl l ↦ absurd (omega (arith, pairs_row b b' l))
      | inr (inl l) ↦ absurd (omega (arith, pairs_row b' b l))
      | inr (inr l) ↦ (omega (arith, ap pairs l), l)
    ]
