-- ===== src/Lexicon/WriterTests.antt =====
-- The theorem on written lexicons at three entries, with an insertion sort and an order of three words.
use speech_synthesis_system.Base.{
  ℕ, ◌≤◌, String, ◌≡◌, ◌≢◌, inl, inr, refl, sym, subst, ◌∙◌, List, [], ◌∷◌, str_eq, ltb,
  if◌then◌else◌, arith, Bool-cases,
}
use mathlib.Core.List.{Memᴰ}
use speech_synthesis_system.Lexicon.Entries.{nil, Sign, negative, zero_sign, positive, Entry}
use speech_synthesis_system.Lexicon.Writing.{Writer, entry_compare, write_sorted}
use speech_synthesis_system.Lexicon.Backing.{Sign-cases}
use speech_synthesis_system.Lexicon.Compiling.{
  IsSorted, IsSorted-rest, WriterLaws, IsFound, write_sorted-lookup_complex,
}
use speech_synthesis_system.Lexicon.Tests.{verb, adjective, third, last_entry}

abbrev by_size : ℕ → ℕ → Sign
by_size m n = if ltb m n then negative else if ltb n m then positive else zero_sign

abbrev rank : String → ℕ
rank s = if str_eq s "live" then 0 else if str_eq s "lives" then 1 else 2

abbrev by_rank : String → String → Sign
by_rank a b = by_size (rank a) (rank b)

unfoldable insert : (Entry → Entry → Sign) → Entry → List Entry → List Entry
insert compare e [] = e ∷ []
insert compare e (x ∷ l) =
    let rest = insert compare e l in
    elim (compare e x) [ positive ↦ x ∷ rest | negative ↦ e ∷ x ∷ l | zero_sign ↦ e ∷ x ∷ l ]

unfoldable insertion_sort : (Entry → Entry → Sign) → List Entry → List Entry
unfolding insert
insertion_sort compare [] = []
insertion_sort compare (e ∷ l) = insert compare e (insertion_sort compare l)

module _ (compare : Entry → Entry → Sign)
    (total : (a b : Entry) → compare a b ≡ positive → compare b a ≢ positive) where
  below_insert :
      (x e : Entry) (l : List Entry)
      → compare x e ≢ positive
      → IsSorted compare (x ∷ l)
      → IsSorted compare (insert compare e l)
      → IsSorted compare (x ∷ insert compare e l)
  unfolding insert
  below_insert x e [] h s i = (h, tt)
  below_insert x e (y ∷ l) h s i = elim (Sign-cases (compare e y)) [
    | inl n ↦ rw (n, insert) (h, rw (n, insert) at i)
    | inr (inl z) ↦ rw (z, insert) (h, rw (z, insert) at i)
    | inr (inr p) ↦ rw (p, insert) (s.0, rw (p, insert) at i)
  ]

  insert-IsSorted :
      (e : Entry) (l : List Entry) → IsSorted compare l → IsSorted compare (insert compare e l)
  unfolding insert
  insert-IsSorted e [] s = tt
  insert-IsSorted e (x ∷ l) s = elim (Sign-cases (compare e x)) [
    | inl n ↦ rw (n, insert) ((λ p. cc), s)
    | inr (inl z) ↦ rw (z, insert) ((λ p. cc), s)
    | inr (inr p) ↦
        rw (p, insert)
          (below_insert x e l (total e x p) s (insert-IsSorted e l (IsSorted-rest compare x l s)))
  ]

  insertion_sort-IsSorted : (l : List Entry) → IsSorted compare (insertion_sort compare l)
  unfolding insertion_sort
  insertion_sort-IsSorted [] = tt
  insertion_sort-IsSorted (e ∷ l) =
      insert-IsSorted e (insertion_sort compare l) (insertion_sort-IsSorted l)

module _ (compare : Entry → Entry → Sign) where
  inserted : (e : Entry) (l : List Entry) → Memᴰ e (insert compare e l)
  unfolding insert
  inserted e [] = Memᴰ.head refl
  inserted e (x ∷ l) = elim (Sign-cases (compare e x)) [
    | inl n ↦ rw (n, insert) (Memᴰ.head refl)
    | inr (inl z) ↦ rw (z, insert) (Memᴰ.head refl)
    | inr (inr p) ↦ rw (p, insert) (Memᴰ.tail (inserted e l))
  ]

  kept_inserting : (a e : Entry) (l : List Entry) → Memᴰ a l → Memᴰ a (insert compare e l)
  unfolding insert
  kept_inserting a e [] m = elim m [ ]
  kept_inserting a e (x ∷ l) (Memᴰ.head same) = elim (Sign-cases (compare e x)) [
    | inl n ↦ rw (n, insert) (Memᴰ.tail (Memᴰ.head same))
    | inr (inl z) ↦ rw (z, insert) (Memᴰ.tail (Memᴰ.head same))
    | inr (inr p) ↦ rw (p, insert) (Memᴰ.head same)
  ]
  kept_inserting a e (x ∷ l) (Memᴰ.tail m) = elim (Sign-cases (compare e x)) [
    | inl n ↦ rw (n, insert) (Memᴰ.tail (Memᴰ.tail m))
    | inr (inl z) ↦ rw (z, insert) (Memᴰ.tail (Memᴰ.tail m))
    | inr (inr p) ↦ rw (p, insert) (Memᴰ.tail (kept_inserting a e l m))
  ]

  insertion_sort-mem : (e : Entry) (l : List Entry) → Memᴰ e l → Memᴰ e (insertion_sort compare l)
  unfolding insertion_sort
  insertion_sort-mem e [] m = elim m [ ]
  insertion_sort-mem e (x ∷ l) (Memᴰ.head same) =
      subst (λ y. Memᴰ y (insert compare x (insertion_sort compare l))) (sym same)
        (inserted x (insertion_sort compare l))
  insertion_sort-mem e (x ∷ l) (Memᴰ.tail m) =
      kept_inserting e x (insertion_sort compare l) (insertion_sort-mem e l m)

abbrev toy_writer : Writer
toy_writer = record {
  fcompare = by_rank;
  strcmp = λ a b. zero_sign;
  pos_text = λ pos. "";
  entry_text = λ e. e.pronunciation;
  size = λ s. if str_eq s "l i v" then 20 else 24;
  qsort = λ compare l. insertion_sort compare l;
  end_word = "eof";
}

by_size_total : (m n : ℕ) → by_size m n ≡ positive → by_size n m ≢ positive
by_size_total m n h e = ground (arith, h, e)

by_size-negative :
    (m n k : ℕ) → by_size m n ≡ negative → by_size n k ≢ positive → by_size m k ≡ negative
by_size-negative m n k h e = ground (arith, h, e)

by_size-zero :
    (m n k : ℕ) → by_size m n ≡ zero_sign → by_size n k ≢ positive → by_size m k ≢ positive
by_size-zero m n k h e p = e (ground (arith, h, p))

compared : (a b : Entry) → entry_compare toy_writer a b ≡ by_rank a.headword b.headword
unfolding entry_compare
compared a b = elim (Sign-cases (by_rank a.headword b.headword)) [
  | inl n ↦ rw n refl
  | inr (inl z) ↦ rw z refl
  | inr (inr p) ↦ rw p refl
]

toy_total :
    (a b : Entry)
    → entry_compare toy_writer a b ≡ positive
    → entry_compare toy_writer b a ≢ positive
toy_total a b h e =
    by_size_total (rank a.headword) (rank b.headword) (sym (compared a b) ∙ h)
      (sym (compared b a) ∙ e)

toy-WriterLaws : WriterLaws toy_writer
toy-WriterLaws = record {
  qsort-IsSorted = insertion_sort-IsSorted (entry_compare toy_writer) toy_total;
  qsort-mem = insertion_sort-mem (entry_compare toy_writer);
  negative_then = λ word a b h e. by_size-negative (rank word) (rank a) (rank b) h e;
  zero_then = λ word a b h e. by_size-zero (rank word) (rank a) (rank b) h e;
}

long_enough : (e : Entry) → 8 ≤ toy_writer.size (toy_writer.entry_text e)
long_enough e = elim (Bool-cases (str_eq e.pronunciation "l i v")) [
  | inl h ↦ rw h (omega arith)
  | inr h ↦ rw h (omega arith)
]

-- The word `live`, before the word that is read at the end of the file.
write_sorted-lookup_complex_example :
    IsFound toy_writer toy-WriterLaws "live" nil
      (write_sorted toy_writer (third ∷ last_entry ∷ verb ∷ adjective ∷ []))
write_sorted-lookup_complex_example =
    write_sorted-lookup_complex toy_writer toy-WriterLaws "live" nil verb
      (third ∷ last_entry ∷ verb ∷ adjective ∷ []) (Memᴰ.tail (Memᴰ.tail (Memᴰ.head refl))) refl
      long_enough refl
