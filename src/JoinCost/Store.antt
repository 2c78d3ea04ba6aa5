-- ===== src/JoinCost/Store.antt =====
-- `val` and `setval` of EST_JoinCostCache.cc as a symmetric table.
use speech_synthesis_system.Base.{
  ℕ, zero, suc, ◌<◌, ◌≤◌, ◌≡◌, ◌≢◌, inl, inr, refl, arith, ap, Bool, ◌&&◌, ◌||◌, List, [], ◌∷◌,
  some, length, get_elem?, set, ltb, ◌==◌, if◌then◌else◌, ok, Bool-cases,
}
use speech_synthesis_system.JoinCost.Cache.{JoinCostCache, min_val, index, read, write, val, setval}
use speech_synthesis_system.JoinCost.Index.{pairs, pairs_row, index-pairs, index_injective}

-- The block has a place for each pair, and no index wraps round.
pub record IsRoomy (c : JoinCostCache) : Type 0 where
  pub room : pairs c.num_instances ≤ length c.cache
  pub few : c.num_instances ≤ 65536

get_elem?-set :
    (xs : List ℕ) (i j v : ℕ)
    → i < length xs
    → get_elem? (set xs i v) j ≡ (if i == j then some v else get_elem? xs j)
get_elem?-set [] i j v h = absurd (omega arith)
get_elem?-set (x ∷ xs) zero zero v h = refl
get_elem?-set (x ∷ xs) zero (suc j) v h = ground arith
get_elem?-set (x ∷ xs) (suc i) zero v h = ground arith
get_elem?-set (x ∷ xs) (suc i) (suc j) v h = ground (arith, get_elem?-set xs i j v (omega arith))

length-set : (xs : List ℕ) (i v : ℕ) → length (set xs i v) ≡ length xs
length-set [] i v = refl
length-set (x ∷ xs) zero v = refl
length-set (x ∷ xs) (suc i) v = ap suc (length-set xs i v)

-- The place of a pair in either order.
pub slot : ℕ → ℕ → ℕ
slot a b = if ltb a b then index b a else index a b

module _ (c : JoinCostCache) where
  val-slot :
      (a b : ℕ)
      → a ≤ c.num_instances
      → b ≤ c.num_instances
      → val c a b ≡ (if a == b then ok min_val else read c (slot a b))
  unfolding val slot
  val-slot a b h k = ground arith

  setval-slot :
      (a b v : ℕ)
      → a ≤ c.num_instances
      → b ≤ c.num_instances
      → setval c a b v ≡ (if a == b then ok c else write c (slot a b) v)
  unfolding setval slot
  setval-slot a b v h k = ground arith

  slot-lt :
      (a b : ℕ)
      → IsRoomy c
      → a < c.num_instances
      → b < c.num_instances
      → a ≢ b
      → slot a b < length c.cache
  unfolding slot
  slot-lt a b r h k n = ground (
    arith,
    index-pairs b a,
    index-pairs a b,
    pairs_row b c.num_instances,
    pairs_row a c.num_instances,
  )

-- Two pairs that are the same in some order.
abbrev pub same_pair : ℕ → ℕ → ℕ → ℕ → Bool
same_pair a b i j = (a == i && b == j) || (a == j && b == i)

slot_eq :
    (a b i j n : ℕ)
    → n ≤ 65536
    → a < n
    → b < n
    → i < n
    → j < n
    → a ≢ b
    → i ≢ j
    → (slot a b == slot i j) ≡ same_pair a b i j
unfolding slot
slot_eq a b i j n few ha hb hi hj ne ne' = ground (
  arith,
  index_injective a b i j,
  index_injective a b j i,
  index_injective b a i j,
  index_injective b a j i,
)

module _ (c : JoinCostCache) (a b v : ℕ) (r : IsRoomy c) (ha : a < c.num_instances)
    (hb : b < c.num_instances) where
  -- The cache after `setval`.
  abbrev stored : JoinCostCache
  stored = if a == b then c else record c { cache = set c.cache (slot a b) v }

  setval-stored : setval c a b v ≡ ok stored
  unfolding write
  setval-stored =
      rw (setval-slot c a b v (omega arith) (omega arith)) (ground (arith, slot-lt c a b r ha hb))

  stored-IsRoomy : IsRoomy stored
  stored-IsRoomy = ground (arith, length-set c.cache (slot a b) v, r.room, r.few)

  val-written :
      a ≢ b
      → (i j : ℕ) → i < c.num_instances
      → j < c.num_instances
      → val (record c { cache = set c.cache (slot a b) v }) i j
        ≡ (if i == j then ok min_val else if same_pair a b i j then ok v else val c i j)
  unfolding read
  val-written n i j hi hj =
      rw
        (
          val-slot c i j (omega arith) (omega arith),
          val-slot (record c { cache = set c.cache (slot a b) v }) i j (omega arith) (omega arith),
        )
        (ground (
          arith,
          slot_eq a b i j c.num_instances,
          r.few,
          slot-lt c a b r ha hb,
          get_elem?-set c.cache (slot a b) (slot i j) v,
        ))

  val-stored :
      (i j : ℕ)
      → i < c.num_instances
      → j < c.num_instances
      → val stored i j ≡ (
          if i == j
          then ok min_val
          else if a == b
          then val c i j
          else if same_pair a b i j
          then ok v
          else val c i j)
  unfolding read
  val-stored i j hi hj = elim (Bool-cases (a == b)) [
    | inl e ↦ rw e (ground (arith, val-slot c i j))
    | inr e ↦ rw e (val-written (ground arith) i j hi hj)
  ]

-- On a cache with a place for each pair, `setval` returns a cache that is as roomy, in which `val` of
-- the pair, in either order, is the new value, that of equal indices is the least value, and that of
-- every other pair is as before.
pub val-setval :
    (c : JoinCostCache) (a b v : ℕ)
    → IsRoomy c
    → a < c.num_instances
    → b < c.num_instances
    → (c' : JoinCostCache) × (setval c a b v ≡ ok c')
      × IsRoomy c'
      × (c'.num_instances ≡ c.num_instances)
      × (c'.id ≡ c.id)
      × ((i j : ℕ)
          → i < c.num_instances
          → j < c.num_instances
          → val c' i j ≡ (
              if i == j
              then ok min_val
              else if a == b
              then val c i j
              else if same_pair a b i j
              then ok v
              else val c i j))
val-setval c a b v r ha hb = (
  stored c a b v r ha hb,
  setval-stored c a b v r ha hb,
  stored-IsRoomy c a b v r ha hb,
  ground arith,
  ground arith,
  val-stored c a b v r ha hb,
)

pub val_comm : (c : JoinCostCache) (a b : ℕ) → val c a b ≡ val c b a
unfolding val
val_comm c a b = ground arith
