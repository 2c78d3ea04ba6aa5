-- ===== src/JoinCost/Overflow.antt =====
-- Where EST_JoinCostCache.cc leaves its block.
use speech_synthesis_system.Base.{
  ℕ, suc, ◌+◌, ◌/◌, ◌<◌, ◌≤◌, ◌≡◌, arith, zero, refl, get_elem?, none, List, [], ◌∷◌, length, set,
  ltb, if◌then◌else◌, ok, err,
}
use speech_synthesis_system.JoinCost.Cache.{
  JoinCostCache, new_cache, cachelen_of, out_of_block, index, read, write, val, setval,
}
use speech_synthesis_system.JoinCost.Index.{pairs, index-pairs, cachelen-pairs}

-- On a new cache of 2 to 65535 instances, `setval` of a pair of instances writes to the block exactly
-- where the pair is not among the last `(n + 1) / 2` places, and writes past the block's end for those.
pub setval-new_cache :
    (id n a b v : ℕ) (mem : List ℕ)
    → 2 ≤ n
    → n ≤ 65535
    → length mem ≡ cachelen_of n
    → b < a
    → a < n
    → setval (new_cache id n mem) a b v ≡ (
        if ltb (pairs a + b + (n + 1) / 2) (pairs n)
        then ok (record (new_cache id n mem) { cache = set mem (index a b) v })
        else err out_of_block)
unfolding setval new_cache write
setval-new_cache id n a b v mem two few e h k = ground (arith, index-pairs a b, cachelen-pairs n)

get_elem?-past : (xs : List ℕ) (i : ℕ) → length xs ≤ i → get_elem? xs i ≡ none
get_elem?-past [] i h = refl
get_elem?-past (x ∷ xs) zero h = absurd (omega arith)
get_elem?-past (x ∷ xs) (suc i) h = get_elem?-past xs i (omega arith)

-- The test of `val` lets an index equal to the number of instances through, and the read is then
-- past a block that has a place for each pair and no more.
pub val-num_instances :
    (c : JoinCostCache) (b : ℕ)
    → length c.cache ≡ pairs c.num_instances
    → c.num_instances ≤ 65536
    → b < c.num_instances
    → val c c.num_instances b ≡ err out_of_block
unfolding val read
val-num_instances c b e few h =
    ground (arith, index-pairs c.num_instances b, get_elem?-past c.cache (index c.num_instances b))
