-- ===== src/Import/Names.antt =====
-- The names and the keys of sets of classes.
use mathlib.Core.List.{Permᴰ, Memᴰ}
use ocm.Prelude.{
  ◌<◌, ◌≡◌, refl, ap, sym, ◌∙◌, inl, inr, Bool, true, false, ◌||◌, List, [], ◌∷◌, ◌++◌, none, some,
  length, leb, ◌==◌, any, ok, err, Bool-cases, Option-cases, arith,
}
use ocm.Prelude.Ordered.{insert_by, sort_by}
use ocm.Prelude.Text.{Text, codes, join, text_eq, text_eq_sound}
use ocm.Calendar.{Date}
use ocm.Schedule.{Regime}
use ocm.Import.Groups.{Row, SeqGroup}
use ocm.Import.Records.{TeachingClass, collect_teaching_classes, build_teaching_classes}
use ocm.Import.Split.{Orders, marked, guards, split, panicked}
use ocm.Import.Classes.{
  text_leb, admin_set_key, split_trailing_digits, number_of, put_entry, group_members, numbered,
  unnumbered, run_text, runs, number_parts, group_parts, compress_name, long_name,
  teaching_class_name,
}

text_leb_total : (s t : Text) → (text_leb s t || text_leb t s) ≡ true
text_leb_total [] t = refl
text_leb_total (c ∷ s) [] = refl
text_leb_total (c ∷ s) (d ∷ t) = ground (arith, text_leb_total s t)

text_leb_antisym : (s t : Text) → text_leb s t ≡ true → text_leb t s ≡ true → s ≡ t
text_leb_antisym [] [] h k = refl
text_leb_antisym [] (d ∷ t) h k = absurd (ground (arith, k))
text_leb_antisym (c ∷ s) [] h k = absurd (ground (arith, h))
text_leb_antisym (c ∷ s) (d ∷ t) h k = ground (arith, text_leb_antisym s t)

text_leb_trans : (s t u : Text) → text_leb s t ≡ true → text_leb t u ≡ true → text_leb s u ≡ true
text_leb_trans [] t u h k = refl
text_leb_trans (c ∷ s) [] u h k = absurd (ground (arith, h))
text_leb_trans (c ∷ s) (d ∷ t) [] h k = absurd (ground (arith, k))
text_leb_trans (c ∷ s) (d ∷ t) (e ∷ u) h k = ground (arith, text_leb_trans s t u)

abbrev put : Text → List Text → List Text
put = insert_by text_leb

-- Two insertions in either order.
put-put : (a b : Text) (xs : List Text) → put a (put b xs) ≡ put b (put a xs)
unfolding insert_by
put-put a b [] = ground (arith, text_leb_total a b, text_leb_antisym a b)
put-put a b (y ∷ ys) = elim (Bool-cases (text_leb a y)) [
  | inl e ↦ elim (Bool-cases (text_leb b y)) [
    | inl g ↦ rw (insert_by, e, g) (ground (arith, text_leb_total a b, text_leb_antisym a b))
    | inr g ↦
        let apart : text_leb b a ≡ false = ground (arith, text_leb_trans b a y, e, g) in
        rw (insert_by, e, g) (ground (arith, e, g, apart))
  ]
  | inr e ↦ elim (Bool-cases (text_leb b y)) [
    | inl g ↦
        let apart : text_leb a b ≡ false = ground (arith, text_leb_trans a b y, e, g) in
        rw (insert_by, e, g) (ground (arith, e, g, apart))
    | inr g ↦ rw (insert_by, e, g) (ground (arith, e, g, put-put a b ys))
  ]
]

sort_by-perm : (xs ys : List Text) → Permᴰ xs ys → sort_by text_leb xs ≡ sort_by text_leb ys
unfolding sort_by
sort_by-perm _ _ Permᴰ.nil = refl
sort_by-perm (a ∷ xs) (b ∷ ys) (Permᴰ.cons e p) =
    ap (put a) (sort_by-perm xs ys p) ∙ ap (λ x. put x (sort_by text_leb ys)) e
sort_by-perm (a ∷ b ∷ xs) (c ∷ d ∷ _) (Permᴰ.swap e g) =
    put-put a b (sort_by text_leb xs)
    ∙ ap (λ x. put x (put a (sort_by text_leb xs))) g
    ∙ ap (λ x. put c (put x (sort_by text_leb xs))) e
sort_by-perm xs ys (Permᴰ.trans {l₂ = zs} p q) = sort_by-perm xs zs p ∙ sort_by-perm zs ys q

-- The same classes in another order have the same key.
pub admin_set_key-perm : (xs ys : List Text) → Permᴰ xs ys → admin_set_key xs ≡ admin_set_key ys
unfolding admin_set_key
admin_set_key-perm xs ys p = ap (join (codes ",")) (sort_by-perm xs ys p)

-- A class alone gets its own name.
compress_name-one : (m : Text) → compress_name (m ∷ []) ≡ m
unfolding compress_name group_members put_entry group_parts numbered unnumbered number_parts runs
    run_text sort_by insert_by join
compress_name-one m = elim (Option-cases (number_of (split_trailing_digits m).1)) [
  | inl e ↦ rw e refl
  | inr (n, e) ↦ let same : (n == n) ≡ true = ground arith in rw (e, same) refl
]

-- The name of a single class that is longer than 64 characters asks for the second member of a list
-- that has one.
teaching_class_name-panic : (m : Text) → 64 < length m → teaching_class_name (m ∷ []) ≡ none
unfolding teaching_class_name long_name
teaching_class_name-panic m h =
    let long : leb (length m) 64 ≡ false = ground (arith, h) in
    rw (teaching_class_name, compress_name-one m, long) refl

-- A class of that key is listed.
abbrev has_key : Text → List TeachingClass → Bool
has_key key = any (λ c. text_eq c.key key)

has_key-append :
    (key : Text) (classes : List TeachingClass) (c : TeachingClass)
    → has_key key classes ≡ false
    → text_eq c.key key ≡ false
    → has_key key (classes ++ c ∷ []) ≡ false
has_key-append key [] c h k = ground (arith, k)
has_key-append key (x ∷ classes) c h k =
    ground (arith, h, has_key-append key classes c (ground (arith, h)) k)

module _ (g : SeqGroup) (m : Text) where
  -- The loop over the courses does not get past the course, whatever stands before it.
  collect-panic :
      (visited : List SeqGroup) (classes : List TeachingClass)
      → g.skipped ≡ false
      → text_eq g.admin_key [] ≡ false
      → 64 < length m
      → Memᴰ g visited
      → ((h : SeqGroup) → Memᴰ h visited → h.admin_key ≡ g.admin_key → h.members ≡ m ∷ [])
      → has_key g.admin_key classes ≡ false
      → collect_teaching_classes visited classes ≡ none
  unfolding collect_teaching_classes
  collect-panic [] classes kept some_class long mem alone new = elim mem [ ]
  collect-panic (x ∷ visited) classes kept some_class long (Memᴰ.head e) alone new =
      let first : x.skipped ≡ false = ap (λ z. z.skipped) (sym e) ∙ kept in
      let second : text_eq x.admin_key [] ≡ false =
        ap (λ z. text_eq z.admin_key []) (sym e) ∙ some_class in
      let third : has_key x.admin_key classes ≡ false =
        ap (λ z. has_key z.admin_key classes) (sym e) ∙ new in
      let one : x.members ≡ m ∷ [] = alone x (Memᴰ.head refl) (ap (λ z. z.admin_key) (sym e)) in
      let stops : teaching_class_name x.members ≡ none =
        ap teaching_class_name one ∙ teaching_class_name-panic m long in
      rw (collect_teaching_classes, first, second, third, stops) refl
  collect-panic (x ∷ visited) classes kept some_class long (Memᴰ.tail t) alone new =
      let rest : (more : List TeachingClass)
          → has_key g.admin_key more ≡ false
          → collect_teaching_classes visited more ≡ none =
        λ more free.
          collect-panic visited more kept some_class long t (λ h k. alone h (Memᴰ.tail k)) free in
      elim (Bool-cases
        (x.skipped || text_eq x.admin_key [] || any (λ c. text_eq c.key x.admin_key) classes)) [
          | inl e ↦ rw (collect_teaching_classes, e) (rest classes new)
          | inr e ↦ elim (Option-cases (teaching_class_name x.members)) [
            | inl n ↦ rw (collect_teaching_classes, e, n) refl
            | inr (named, n) ↦ elim (Bool-cases (text_eq x.admin_key g.admin_key)) [
              | inl k ↦
                  let one : x.members ≡ m ∷ [] =
                    alone x (Memᴰ.head refl) (text_eq_sound x.admin_key g.admin_key k) in
                  let stops : teaching_class_name x.members ≡ none =
                    ap teaching_class_name one ∙ teaching_class_name-panic m long in
                  rw (collect_teaching_classes, e, stops) refl
              | inr k ↦
                  rw (collect_teaching_classes, e, n)
                    (rest _ (has_key-append g.admin_key classes _ new k))
            ]
          ]
        ]

-- A sheet that passes the first checks, in which a course that is kept has a single class whose name
-- is longer than 64 characters, and so has every course with the same key: the split panics, in
-- whatever order the loop over the map of courses goes.
pub split-panic :
    (orders : Orders) (built : Bool) (rows : List Row) (semester : Text) (monday : Date)
    (regimes : List Regime) (g : SeqGroup) (m : Text)
    → guards rows semester monday ≡ ok tt
    → g.skipped ≡ false
    → text_eq g.admin_key [] ≡ false
    → 64 < length m
    → Memᴰ g (orders.first (marked rows))
    → ((h : SeqGroup)
        → Memᴰ h (orders.first (marked rows))
        → h.admin_key ≡ g.admin_key
        → h.members ≡ m ∷ [])
    → split orders built rows semester (some monday) regimes ≡ err panicked
unfolding split build_teaching_classes
split-panic orders built rows semester monday regimes g m passed kept some_class long mem alone =
    let stops : collect_teaching_classes (orders.first (marked rows)) [] ≡ none =
      collect-panic g m (orders.first (marked rows)) [] kept some_class long mem alone refl in
    rw (split, passed, build_teaching_classes, stops) refl
