-- ===== src/JoinCost/Cache.antt =====
-- The class `EST_JoinCostCache`: its constructors, `val` and `setval`.
-- `unsigned int` has 32 bits. The block at `cache` is the list of its bytes, and an access outside
-- it, which C++ leaves undefined, is the error `out_of_block`. `delete_memory` is none where a constructor
-- does not set it.
use speech_synthesis_system.Base.{
  ℕ, ◌+◌, ◌-◌, ◌*◌, ◌/◌, ◌%◌, ◌^◌, Bool, true, ◌||◌, Option, none, some, Outcome, ok, err, List, [],
  length, get_elem?, set, ltb, ◌==◌, if◌then◌else◌,
}

-- `EST_error` on an index, or an access outside the block
pub data CacheError : Type 0 where
  index_too_big out_of_block : CacheError

pub record JoinCostCache : Type 0 where
  pub num_instances : ℕ
  pub id : ℕ
  pub cache : List ℕ
  pub cachelen : ℕ
  pub delete_memory : Option Bool

abbrev pub min_val : ℕ
min_val = 0

abbrev pub max_val : ℕ
max_val = 255

-- `(n*n)/2-n`
unfoldable pub cachelen_of : ℕ → ℕ
cachelen_of n = ((n * n) % 2 ^ 32 / 2 + 2 ^ 32 - n) % 2 ^ 32

unfoldable pub empty_cache : ℕ → JoinCostCache
empty_cache id = record {
  num_instances = 0;
  id = id;
  cache = [];
  cachelen = 0;
  delete_memory = none;
}

-- `mem` is the block of `cachelen` bytes that `new` returns.
unfoldable pub new_cache : ℕ → ℕ → List ℕ → JoinCostCache
unfolding cachelen_of
new_cache id n mem = record {
  num_instances = n;
  id = id;
  cache = mem;
  cachelen = cachelen_of n;
  delete_memory = some true;
}

unfoldable pub cache_on : ℕ → List ℕ → ℕ → Bool → JoinCostCache
unfolding cachelen_of
cache_on id mem n del = record {
  num_instances = n;
  id = id;
  cache = mem;
  cachelen = cachelen_of n;
  delete_memory = some del;
}

-- `(b*(b-1)>>1)+a`
unfoldable pub index : ℕ → ℕ → ℕ
index b a = (((b * ((b + 2 ^ 32 - 1) % 2 ^ 32)) % 2 ^ 32) / 2 + a) % 2 ^ 32

unfoldable pub read : JoinCostCache → ℕ → Outcome CacheError ℕ
read c i = elim (get_elem? c.cache i) [ none ↦ err out_of_block | some v ↦ ok v ]

unfoldable pub write : JoinCostCache → ℕ → ℕ → Outcome CacheError JoinCostCache
write c i v =
    if ltb i (length c.cache) then ok (record c { cache = set c.cache i v }) else err out_of_block

unfoldable pub val : JoinCostCache → ℕ → ℕ → Outcome CacheError ℕ
unfolding index read
val c a b =
    if ltb c.num_instances a || ltb c.num_instances b
    then err index_too_big
    else if a == b
    then ok min_val
    else if ltb a b
    then read c (index b a)
    else read c (index a b)

-- The cache behind the write, for the `true` that `setval` always returns.
unfoldable pub setval : JoinCostCache → ℕ → ℕ → ℕ → Outcome CacheError JoinCostCache
unfolding index write
setval c a b v =
    if ltb c.num_instances a || ltb c.num_instances b
    then err index_too_big
    else if a == b
    then ok c
    else if ltb a b
    then write c (index b a) v
    else write c (index a b) v
