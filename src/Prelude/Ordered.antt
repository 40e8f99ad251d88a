-- ===== src/Prelude/Ordered.antt =====
-- Sets of numbers: the keys of a Go map in the order in which they came, and sorted.
use Prim.Native.Nat.{ℕ, suc, ◌<◌}
use mathlib.Core.Path.{◌≡◌, refl, ap, ◌∙◌}
use mathlib.Core.Logic.{inl, inr}
use mathlib.Core.Bool.{Bool, true, false, ◌||◌}
use mathlib.Core.List.{List, [], ◌∷◌, ◌++◌}
use native.Mathlib.Omega.{arith}
use ocm.Prelude.Tests.{◌==◌, leb, Bool-cases, if◌then◌else◌}
use ocm.Prelude.Lists.{length, any-append, elem, All}

-- The set after more keys are put in.
unfoldable pub dedup : List ℕ → List ℕ → List ℕ
dedup [] groups = groups
dedup (id ∷ ids) groups = dedup ids (if elem id groups then groups else groups ++ id ∷ [])

-- `sort.Slice` on numbers, of which the result is all that counts.
unfoldable pub insert : ℕ → List ℕ → List ℕ
insert n [] = n ∷ []
insert n (m ∷ ms) = if leb n m then n ∷ m ∷ ms else m ∷ insert n ms

unfoldable pub sort : List ℕ → List ℕ
sort [] = []
sort (n ∷ ns) = insert n (sort ns)

-- Every element is below those behind it.
abbrev pub Ascending : List ℕ → Type 0
Ascending [] = Unit
Ascending (n ∷ ns) = All (λ m. n < m) ns × Ascending ns

pub elem-insert : (k n : ℕ) (ns : List ℕ) → elem k (insert n ns) ≡ (n == k || elem k ns)
unfolding insert
elem-insert k n [] = refl
elem-insert k n (m ∷ ms) = ground (arith, elem-insert k n ms)

length-insert : (n : ℕ) (ns : List ℕ) → length (insert n ns) ≡ suc (length ns)
unfolding insert
length-insert n [] = refl
length-insert n (m ∷ ms) = ground (arith, length-insert n ms)

pub length-sort : (ns : List ℕ) → length (sort ns) ≡ length ns
unfolding sort
length-sort [] = refl
length-sort (n ∷ ns) = length-insert n (sort ns) ∙ ap suc (length-sort ns)

pub elem-sort : (k : ℕ) (ns : List ℕ) → elem k (sort ns) ≡ elem k ns
unfolding sort
elem-sort k [] = refl
elem-sort k (n ∷ ns) = rw (elem-insert k n (sort ns), elem-sort k ns)

elem_same : (i k : ℕ) (ns : List ℕ) → (i == k) ≡ true → elem i ns ≡ elem k ns
elem_same i k ns e = let same : i ≡ k = ground arith in ap (λ x. elem x ns) same

pub elem-dedup :
    (k : ℕ) (ids groups : List ℕ) → elem k (dedup ids groups) ≡ (elem k ids || elem k groups)
unfolding dedup
elem-dedup k [] groups = refl
elem-dedup k (i ∷ ids) groups =
    rw (elem-dedup k ids _)
      (ground (arith, elem_same i k groups, any-append (λ m. m == k) groups (i ∷ [])))

abbrev pub Distinct : List ℕ → Type 0
Distinct [] = Unit
Distinct (n ∷ ns) = (elem n ns ≡ false) × Distinct ns

Distinct-snoc : (ns : List ℕ) (n : ℕ) → Distinct ns → elem n ns ≡ false → Distinct (ns ++ n ∷ [])
Distinct-snoc [] n d h = (refl, tt)
Distinct-snoc (m ∷ ns) n d h = (
  rw (any-append (λ x. x == m) ns (n ∷ [])) (ground arith),
  Distinct-snoc ns n d.1 (ground arith),
)

pub dedup-Distinct : (ids groups : List ℕ) → Distinct groups → Distinct (dedup ids groups)
unfolding dedup
dedup-Distinct [] groups d = d
dedup-Distinct (i ∷ ids) groups d = dedup-Distinct ids _ (elim (Bool-cases (elem i groups)) [
  | inl h ↦ rw h d
  | inr h ↦ rw h (Distinct-snoc groups i d h)
])

below_insert :
    (k n : ℕ) (ns : List ℕ) → k < n → All (λ m. k < m) ns → All (λ m. k < m) (insert n ns)
unfolding insert
below_insert k n [] h a = (h, tt)
below_insert k n (m ∷ ms) h a = elim (Bool-cases (leb n m)) [
  | inl e ↦ rw e (h, a)
  | inr e ↦ rw e (a.0, below_insert k n ms h a.1)
]

above_head : (n m : ℕ) (ms : List ℕ) → n < m → All (λ x. m < x) ms → All (λ x. n < x) ms
above_head n m [] h a = tt
above_head n m (x ∷ ms) h a = (omega arith, above_head n m ms h a.1)

insert-Ascending :
    (n : ℕ) (ns : List ℕ) → Ascending ns → elem n ns ≡ false → Ascending (insert n ns)
unfolding insert
insert-Ascending n [] a h = (tt, tt)
insert-Ascending n (m ∷ ms) a h = elim (Bool-cases (leb n m)) [
  | inl e ↦ let lt : n < m = ground arith in rw e ((lt, above_head n m ms lt a.0), a)
  | inr e ↦
      let lt : m < n = ground arith in
      rw e (below_insert m n ms lt a.0, insert-Ascending n ms a.1 (ground arith))
]

pub sort-Ascending : (ns : List ℕ) → Distinct ns → Ascending (sort ns)
unfolding sort
sort-Ascending [] d = tt
sort-Ascending (n ∷ ns) d =
    insert-Ascending n (sort ns) (sort-Ascending ns d.1) (rw (elem-sort n ns) d.0)

-- A set that is read out sorted rises strictly, and has the keys that were put in.
pub sort_set :
    (ids : List ℕ)
    → Ascending (sort (dedup ids [])) × ((k : ℕ) → elem k (sort (dedup ids [])) ≡ elem k ids)
sort_set ids = (
  sort-Ascending (dedup ids []) (dedup-Distinct ids [] tt),
  λ k. rw (elem-sort k (dedup ids []), elem-dedup k ids []) (ground arith),
)

-- The insertion sort by a test, which keeps the order of equal elements.
module _ {ℓ} {A : Type ℓ} (le : A → A → Bool) where
  unfoldable pub insert_by : A → List A → List A
  insert_by x [] = x ∷ []
  insert_by x (y ∷ ys) = if le x y then x ∷ y ∷ ys else y ∷ insert_by x ys

  unfoldable pub sort_by : List A → List A
  sort_by [] = []
  sort_by (x ∷ xs) = insert_by x (sort_by xs)
