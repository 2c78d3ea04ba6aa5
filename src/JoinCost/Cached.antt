-- ===== src/JoinCost/Cached.antt =====
-- What `computeAndCache` of EST_JoinCostCache.cc leaves in the cache.
use native.Mathlib.Nat.{zero-add}
use speech_synthesis_system.Base.{
  ℕ, zero, suc, ◌+◌, ◌<◌, ◌≤◌, ◌≡◌, ◌≢◌, ◌⊎◌, inl, inr, refl, ◌∙◌, arith, List, [], ◌∷◌, some,
  length, get_elem?, ◌==◌, if◌then◌else◌, ok,
}
use speech_synthesis_system.JoinCost.Cache.{JoinCostCache, min_val, val}
use speech_synthesis_system.JoinCost.Store.{IsRoomy, same_pair, val-setval, val_comm}
use speech_synthesis_system.JoinCost.Compute.{
  Costs, quantise, cache_row, cache_rows, compute_and_cache,
}

-- The marks of the items from index `i` on.
abbrev pub marks_from {ℓ} : {A : Type ℓ} → ℕ → ℕ → List A → List (ℕ × ℕ)
marks_from id i [] = []
marks_from id i (x ∷ xs) = (id, i) ∷ marks_from id (i + 1) xs

module _ (w : Costs) where
  open w use {Item, Float, join_cost}

  record RowDone (it : Item) (i : ℕ) (rest : List Item) (j : ℕ) (c c' : JoinCostCache)
      : Type 0 where
    roomy : IsRoomy c'
    size : c'.num_instances ≡ c.num_instances
    same_id : c'.id ≡ c.id
    cached :
        (k : ℕ) (b : Item)
        → get_elem? rest k ≡ some b
        → val c' i (j + k) ≡ ok (quantise w (join_cost it b))
    kept : (p q : ℕ) → p < q → q < c.num_instances → (p ≢ i) ⊎ (q < j) → val c' p q ≡ val c p q

later_side : {i j p q : ℕ} → (p ≢ i) ⊎ (q < j) → (p ≢ i) ⊎ (q < j + 1)
later_side (inl n) = inl n
later_side (inr l) = inr (omega arith)

-- One `setval` of a row, from `c` to `c1`, and the rest of the row, to `c2`.
module _ (w : Costs) (it jt : w.Item) (i j : ℕ) (rest : List (w.Item)) (c c1 c2 : JoinCostCache)
    (h : i < j) (k : j < c.num_instances) (size : c1.num_instances ≡ c.num_instances)
    (vals : (p q : ℕ)
      → p < c.num_instances
      → q < c.num_instances
      → val c1 p q ≡ (
          if p == q
          then ok min_val
          else if i == j
          then val c p q
          else if same_pair i j p q
          then ok (quantise w (w.join_cost it jt))
          else val c p q))
    (d : RowDone w it i rest (j + 1) c1 c2) where
  row_kept : (p q : ℕ) → p < q → q < c.num_instances → (p ≢ i) ⊎ (q < j) → val c2 p q ≡ val c p q
  row_kept p q l m s = d.kept p q l (omega arith) (later_side s) ∙ ground (arith, vals p q)

  row_cached :
      (n : ℕ) (b : w.Item)
      → get_elem? (jt ∷ rest) n ≡ some b
      → val c2 i (j + n) ≡ ok (quantise w (w.join_cost it b))
  row_cached zero b e =
      let z : j + 0 ≡ j = omega arith in
      let same : jt ≡ b = cc in
      rw (z, ← same) (d.kept i j h (omega arith) (inr (omega arith)) ∙ ground (arith, vals i j))
  row_cached (suc n) b e = let z : j + suc n ≡ (j + 1) + n = omega arith in rw z (d.cached n b e)

module _ (w : Costs) where
  open w use {Item, Float, join_cost}

  cache_row-RowDone :
      (it : Item) (i : ℕ) (rest : List Item) (j : ℕ) (c : JoinCostCache)
      → IsRoomy c
      → i < j
      → j + length rest ≤ c.num_instances
      → (c' : JoinCostCache) × (cache_row w it i rest j c ≡ ok c') × RowDone w it i rest j c c'
  unfolding cache_row
  cache_row-RowDone it i [] j c r h k = (
    c,
    refl,
    record {
      roomy = r;
      size = refl;
      same_id = refl;
      cached = λ k b e. cc;
      kept = λ p q l m s. refl;
    },
  )
  cache_row-RowDone it i (jt ∷ rest) j c r h k =
      let v = quantise w (join_cost it jt) in
      let (c1, e1, r1, size1, id1, val1) = val-setval c i j v r (omega arith) (omega arith) in
      let (c2, e2, d) = cache_row-RowDone it i rest (j + 1) c1 r1 (omega arith) (omega arith) in
      (
        c2,
        rw e1 e2,
        record {
          roomy = d.roomy;
          size = d.size ∙ size1;
          same_id = d.same_id ∙ id1;
          cached = row_cached w it jt i j rest c c1 c2 h (omega arith) size1 val1 d;
          kept = row_kept w it jt i j rest c c1 c2 h (omega arith) size1 val1 d;
        },
      )

  record RowsDone (items : List Item) (i : ℕ) (c c' : JoinCostCache) : Type 0 where
    roomy : IsRoomy c'
    size : c'.num_instances ≡ c.num_instances
    same_id : c'.id ≡ c.id
    cached :
        (k l : ℕ) (a b : Item)
        → k < l
        → get_elem? items k ≡ some a
        → get_elem? items l ≡ some b
        → val c' (i + k) (i + l) ≡ ok (quantise w (join_cost a b))
    kept : (p q : ℕ) → p < q → q < c.num_instances → p < i → val c' p q ≡ val c p q

get_elem?-lt {ℓ} :
    {A : Type ℓ} (xs : List A) (i : ℕ) (a : A) → get_elem? xs i ≡ some a → i < length xs
get_elem?-lt [] i a e = cc
get_elem?-lt (x ∷ xs) zero a e = omega arith
get_elem?-lt (x ∷ xs) (suc i) a e = omega (arith, get_elem?-lt xs i a e)

-- The row of `it`, from `c` to `c1`, and the rows behind it, to `c2`.
module _ (w : Costs) (it : w.Item) (i : ℕ) (rest : List w.Item) (c c1 c2 : JoinCostCache)
    (room : i + 1 + length rest ≤ c.num_instances) (r : RowDone w it i rest (i + 1) c c1)
    (d : RowsDone w rest (i + 1) c1 c2) where
  rows_cached :
      (k l : ℕ) (a b : w.Item)
      → k < l
      → get_elem? (it ∷ rest) k ≡ some a
      → get_elem? (it ∷ rest) l ≡ some b
      → val c2 (i + k) (i + l) ≡ ok (quantise w (w.join_cost a b))
  rows_cached k zero a b h ea eb = absurd (omega arith)
  rows_cached zero (suc l) a b h ea eb =
      let z : i + 0 ≡ i = omega arith in
      let z' : i + suc l ≡ (i + 1) + l = omega arith in
      let size : c1.num_instances ≡ c.num_instances = r.size in
      let same : it ≡ a = cc in
      rw (z, z', ← same)
        (d.kept i (i + 1 + l) (omega arith) (omega (arith, get_elem?-lt rest l b eb)) (omega arith)
          ∙ r.cached l b eb)
  rows_cached (suc k) (suc l) a b h ea eb =
      let z : i + suc k ≡ (i + 1) + k = omega arith in
      let z' : i + suc l ≡ (i + 1) + l = omega arith in
      rw (z, z') (d.cached k l a b (omega arith) ea eb)

  rows_kept : (p q : ℕ) → p < q → q < c.num_instances → p < i → val c2 p q ≡ val c p q
  rows_kept p q h k l =
      let size : c1.num_instances ≡ c.num_instances = r.size in
      d.kept p q h (omega arith) (omega arith) ∙ r.kept p q h k (inl (omega arith))

module _ (w : Costs) where
  cache_rows-RowsDone :
      (items : List w.Item) (i : ℕ) (c : JoinCostCache)
      → IsRoomy c
      → i + length items ≤ c.num_instances
      → (c' : JoinCostCache) × (cache_rows w items i c ≡ ok (c', marks_from c.id i items))
        × RowsDone w items i c c'
  unfolding cache_rows
  cache_rows-RowsDone [] i c r h = (
    c,
    refl,
    record {
      roomy = r;
      size = refl;
      same_id = refl;
      cached = λ k l a b h ea eb. cc;
      kept = λ p q l m s. refl;
    },
  )
  cache_rows-RowsDone (it ∷ rest) i c r h =
      let (c1, e1, d1) = cache_row-RowDone w it i rest (i + 1) c r (omega arith) (omega arith) in
      let size1 : c1.num_instances ≡ c.num_instances = d1.size in
      let (c2, e2, d2) = cache_rows-RowsDone rest (i + 1) c1 d1.roomy (omega arith) in
      (
        c2,
        rw (e1, e2, d1.same_id),
        record {
          roomy = d2.roomy;
          size = d2.size ∙ d1.size;
          same_id = d2.same_id ∙ d1.same_id;
          cached = rows_cached w it i rest c c1 c2 (omega arith) d1 d2;
          kept = rows_kept w it i rest c c1 c2 (omega arith) d1 d2;
        },
      )

  -- On a cache with room for the items, `computeAndCache` returns; every item gets the cache's id and
  -- its position as marks; and `val` of the positions of two items, in either order, is the quantised
  -- join cost of the earlier and the later one.
  pub compute_and_cache_lem :
      (items : List w.Item) (c : JoinCostCache)
      → IsRoomy c
      → length items ≤ c.num_instances
      → (c' : JoinCostCache) × (compute_and_cache w items c ≡ ok (c', marks_from c.id 0 items))
        × ((k l : ℕ) (a b : w.Item)
            → k < l
            → get_elem? items k ≡ some a
            → get_elem? items l ≡ some b
            → (val c' k l ≡ ok (quantise w (w.join_cost a b)))
              × (val c' l k ≡ ok (quantise w (w.join_cost a b))))
  unfolding compute_and_cache
  compute_and_cache_lem items c r h =
      let (c', e, d) = cache_rows-RowsDone items 0 c r (omega arith) in
      (
        c',
        e,
        λ k l a b lt ea eb.
            let v : val c' k l ≡ ok (quantise w (w.join_cost a b)) =
              (rw (zero-add k, zero-add l) at (d.cached k l a b lt ea eb)) in
            (v, val_comm c' l k ∙ v),
      )
