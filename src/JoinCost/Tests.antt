-- ===== src/JoinCost/Tests.antt =====
-- Runs of the cache of join costs, and the theorems at concrete caches.
use speech_synthesis_system.Base.{
  ℕ, ◌+◌, ◌<◌, ◌≡◌, refl, arith, false, List, [], ◌∷◌, some, get_elem?, set, leb, ltb, ◌==◌, ◌/◌,
  if◌then◌else◌, ok, err,
}
use speech_synthesis_system.JoinCost.Cache.{
  JoinCostCache, new_cache, cachelen_of, out_of_block, min_val, index, val, setval,
}
use speech_synthesis_system.JoinCost.Index.{pairs}
use speech_synthesis_system.JoinCost.Store.{IsRoomy, same_pair, val-setval}
use speech_synthesis_system.JoinCost.Overflow.{setval-new_cache, val-num_instances}
use speech_synthesis_system.JoinCost.Compute.{Costs, quantise, compute_and_cache}
use speech_synthesis_system.JoinCost.Cached.{marks_from, compute_and_cache_lem}

-- Costs in thousandths, of items that are numbers.
abbrev thousandths : Costs
thousandths = record {
  Item = ℕ;
  Float = ℕ;
  join_cost = λ a b. a + b;
  at_upper_limit = λ x. leb 996 x;
  at_lower_limit = λ x. leb x 4;
  rint_scaled = λ x. x / 4;
}

abbrev items : List ℕ
items = 100 ∷ 200 ∷ 900 ∷ []

-- A block with all three places of three instances.
abbrev roomy : JoinCostCache
roomy = record {
  num_instances = 3;
  id = 7;
  cache = 0 ∷ 0 ∷ 0 ∷ [];
  cachelen = 3;
  delete_memory = some false;
}

abbrev small : JoinCostCache
small = new_cache 7 4 (0 ∷ 0 ∷ 0 ∷ 0 ∷ [])

roomy-IsRoomy : IsRoomy roomy
unfolding pairs
roomy-IsRoomy = record { room = omega arith; few = omega arith }

val-setval_example :
    (c' : JoinCostCache) × (setval roomy 2 1 9 ≡ ok c')
    × IsRoomy c'
    × (c'.num_instances ≡ roomy.num_instances)
    × (c'.id ≡ roomy.id)
    × ((i j : ℕ)
        → i < roomy.num_instances
        → j < roomy.num_instances
        → val c' i j ≡ (
            if i == j
            then ok min_val
            else if 2 == 1
            then val roomy i j
            else if same_pair 2 1 i j
            then ok 9
            else val roomy i j))
val-setval_example = val-setval roomy 2 1 9 roomy-IsRoomy (omega arith) (omega arith)

setval-new_cache_example : setval small 3 2 9 ≡ (
    if ltb (pairs 3 + 2 + (4 + 1) / 2) (pairs 4)
    then ok (record small { cache = set (0 ∷ 0 ∷ 0 ∷ 0 ∷ []) (index 3 2) 9 })
    else err out_of_block)
unfolding cachelen_of new_cache
setval-new_cache_example =
    setval-new_cache 7 4 3 2 9 (0 ∷ 0 ∷ 0 ∷ 0 ∷ []) (omega arith) (omega arith) refl (omega arith)
      (omega arith)

last_pair : setval small 3 2 9 ≡ err out_of_block
unfolding setval new_cache
last_pair = refl

val-num_instances_example : val roomy 3 1 ≡ err out_of_block
unfolding pairs
val-num_instances_example = val-num_instances roomy 1 refl (omega arith) (omega arith)

compute_and_cache_lem_example :
    (c' : JoinCostCache) × (compute_and_cache thousandths items roomy
      ≡ ok (c', marks_from 7 0 items))
    × ((k l : ℕ) (a b : thousandths.Item)
        → k < l
        → get_elem? items k ≡ some a
        → get_elem? items l ≡ some b
        → (val c' k l ≡ ok (quantise thousandths (a + b)))
          × (val c' l k ≡ ok (quantise thousandths (a + b))))
compute_and_cache_lem_example =
    compute_and_cache_lem thousandths items roomy roomy-IsRoomy (omega arith)
