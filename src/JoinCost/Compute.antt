-- ===== src/JoinCost/Compute.antt =====
-- `computeAndCache` of EST_JoinCostCache.cc. `float` is a parameter: its comparison with the two
-- limits and the scaling with `rint` are operations of `Costs`.
use speech_synthesis_system.Base.{
  ℕ, ◌+◌, ◌%◌, Bool, List, [], ◌∷◌, if◌then◌else◌, Outcome, ok, ◌>>=◌,
}
use speech_synthesis_system.JoinCost.Cache.{JoinCostCache, CacheError, min_val, max_val, setval}

pub record Costs : Type 1 where
  pub Item : Type 0
  pub Float : Type 0
  pub join_cost : Item → Item → Float
  pub at_upper_limit : Float → Bool
  pub at_lower_limit : Float → Bool
  pub rint_scaled : Float → ℕ

module _ (w : Costs) where
  open w use {Item, Float, join_cost, at_upper_limit, at_lower_limit, rint_scaled}

  -- `static_cast<unsigned char>` is the remainder by 256.
  unfoldable pub quantise : Float → ℕ
  quantise cost =
      if at_upper_limit cost
      then max_val
      else if at_lower_limit cost
      then min_val
      else rint_scaled cost % 256

  -- The inner loop, at `it` with index `i`, over the items behind it.
  unfoldable pub cache_row :
      Item → ℕ → List Item → ℕ → JoinCostCache → Outcome CacheError JoinCostCache
  unfolding quantise
  cache_row it i [] j c = ok c
  cache_row it i (jt ∷ rest) j c = do
    c' ← setval c i j (quantise (join_cost it jt))
    cache_row it i rest (j + 1) c'

  -- The outer loop from index `i`. Each item gets the pair of `jccid` and `jccindex`; both are below 2 ^ 31,
  -- where their casts to `int` keep them.
  unfoldable pub cache_rows :
      List Item → ℕ → JoinCostCache → Outcome CacheError (JoinCostCache × List (ℕ × ℕ))
  unfolding cache_row
  cache_rows [] i c = ok (c, [])
  cache_rows (it ∷ rest) i c = do
    c' ← cache_row it i rest (i + 1) c
    (c'', marks) ← cache_rows rest (i + 1) c'
    ok (c'', (c.id, i) ∷ marks)

  unfoldable pub compute_and_cache :
      List Item → JoinCostCache → Outcome CacheError (JoinCostCache × List (ℕ × ℕ))
  unfolding cache_rows
  compute_and_cache items c = cache_rows items 0 c
