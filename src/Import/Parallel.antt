-- ===== src/Import/Parallel.antt =====
-- Which courses are skipped as parallel.
use mathlib.Core.List.{Memᴰ}
use ocm.Prelude.{
  ◌≤◌, ◌≡◌, refl, sym, ap, ◌∙◌, inl, inr, Bool, true, false, ◌&&◌, List, [], ◌∷◌, ◌++◌, any, map,
  length, if◌then◌else◌, Bool-cases, arith,
}
use ocm.Prelude.Text.{Text, text_eq, text_eq_sound, text_eq_refl}
use ocm.Import.Groups.{SeqGroup, Pair, is_pair, put_pair, collect_pairs, skips, mark, mark_parallel}

-- The courses that the table has under a code and a set of classes.
abbrev seqs_of : Text → Text → List Pair → List Text
seqs_of code key [] = []
seqs_of code key (p ∷ pairs) =
    let rest = seqs_of code key pairs in if is_pair code key p then p.seqs else rest

-- A course of a code and a set of classes.
abbrev pub of_pair : Text → Text → SeqGroup → Bool
of_pair code key g = text_eq g.course_code code && text_eq g.admin_key key

abbrev pub seqs_with : Text → Text → List SeqGroup → List Text
seqs_with code key [] = []
seqs_with code key (g ∷ groups) =
    let rest = seqs_with code key groups in if of_pair code key g then g.seq ∷ rest else rest

seqs_of-put_pair :
    (code key : Text) (g : SeqGroup) (pairs : List Pair)
    → seqs_of code key (put_pair g pairs) ≡ (
        if of_pair code key g then seqs_of code key pairs ++ g.seq ∷ [] else seqs_of code key pairs)
unfolding put_pair
seqs_of-put_pair code key g [] = ground arith
seqs_of-put_pair code key g (p ∷ pairs) = elim (Bool-cases (is_pair g.course_code g.admin_key p)) [
  | inl e ↦
      let same_code : p.code ≡ g.course_code =
        text_eq_sound p.code g.course_code (ground (arith, e)) in
      let same_key : p.admin_key ≡ g.admin_key =
        text_eq_sound p.admin_key g.admin_key (ground (arith, e)) in
      let first : text_eq p.code code ≡ text_eq g.course_code code =
        ap (λ x. text_eq x code) same_code in
      let second : text_eq p.admin_key key ≡ text_eq g.admin_key key =
        ap (λ x. text_eq x key) same_key in
      rw (put_pair, e) (ground (arith, first, second))
  | inr e ↦ elim (Bool-cases (of_pair code key g)) [
    | inl o ↦
        let same_code : g.course_code ≡ code =
          text_eq_sound g.course_code code (ground (arith, o)) in
        let same_key : g.admin_key ≡ key = text_eq_sound g.admin_key key (ground (arith, o)) in
        let other : is_pair code key p ≡ false =
          ap (λ x. is_pair x key p) (sym same_code)
          ∙ ap (λ x. is_pair g.course_code x p) (sym same_key)
          ∙ e in
        rw (put_pair, e) (ground (arith, o, other, seqs_of-put_pair code key g pairs))
    | inr o ↦ rw (put_pair, e) (ground (arith, o, seqs_of-put_pair code key g pairs))
  ]
]

append_assoc : {A : Type 0} (xs ys zs : List A) → (xs ++ ys) ++ zs ≡ xs ++ (ys ++ zs)
append_assoc [] ys zs = refl
append_assoc (x ∷ xs) ys zs = ap (◌∷◌ x) (append_assoc xs ys zs)

append_nil : {A : Type 0} (xs : List A) → xs ++ [] ≡ xs
append_nil [] = refl
append_nil (x ∷ xs) = ap (◌∷◌ x) (append_nil xs)

not_empty : (key : Text) → text_eq key [] ≡ false → text_eq [] key ≡ false
not_empty [] h = absurd (ground (arith, h))
not_empty (c ∷ key) h = refl

-- The table has, under a set of classes that is not empty, the courses in their order.
seqs_of-collect_pairs :
    (code key : Text) (groups : List SeqGroup) (pairs : List Pair)
    → text_eq key [] ≡ false
    → seqs_of code key (collect_pairs groups pairs)
      ≡ seqs_of code key pairs ++ seqs_with code key groups
unfolding collect_pairs
seqs_of-collect_pairs code key [] pairs h = sym (append_nil (seqs_of code key pairs))
seqs_of-collect_pairs code key (g ∷ groups) pairs h = elim (Bool-cases (text_eq g.admin_key [])) [
  | inl e ↦
      let none : g.admin_key ≡ [] = text_eq_sound g.admin_key [] e in
      let other : of_pair code key g ≡ false =
        let apart : text_eq g.admin_key key ≡ false =
          ap (λ x. text_eq x key) none ∙ not_empty key h in
        ground (arith, apart) in
      rw (collect_pairs, e, other) (seqs_of-collect_pairs code key groups pairs h)
  | inr e ↦ elim (Bool-cases (of_pair code key g)) [
    | inl o ↦
        rw (collect_pairs, e, o)
          (seqs_of-collect_pairs code key groups (put_pair g pairs) h
            ∙ ap (λ xs. xs ++ seqs_with code key groups)
                (rw o at (seqs_of-put_pair code key g pairs))
            ∙ append_assoc (seqs_of code key pairs) (g.seq ∷ []) (seqs_with code key groups))
    | inr o ↦
        rw (collect_pairs, e, o)
          (seqs_of-collect_pairs code key groups (put_pair g pairs) h
            ∙ ap (λ xs. xs ++ seqs_with code key groups)
                (rw o at (seqs_of-put_pair code key g pairs)))
  ]
]

-- A course that stands in the table with another is skipped.
seqs_of-skips :
    (code key seq : Text) (pairs : List Pair)
    → 2 ≤ length (seqs_of code key pairs)
    → any (text_eq seq) (seqs_of code key pairs) ≡ true
    → any (skips seq) pairs ≡ true
seqs_of-skips code key seq [] long h = absurd (omega (arith, long))
seqs_of-skips code key seq (p ∷ pairs) long h = elim (Bool-cases (is_pair code key p)) [
  | inl e ↦ ground (arith, rw e at long, rw e at h)
  | inr e ↦ ground (arith, seqs_of-skips code key seq pairs (rw e at long) (rw e at h))
]

seqs_with-mem :
    (code key : Text) {g : SeqGroup} (groups : List SeqGroup)
    → Memᴰ g groups
    → of_pair code key g ≡ true
    → any (text_eq g.seq) (seqs_with code key groups) ≡ true
seqs_with-mem code key [] m h = elim m [ ]
seqs_with-mem code key {g} (x ∷ groups) (Memᴰ.head e) h =
    rw (← e) (ground (arith, h, text_eq_refl g.seq))
seqs_with-mem code key (x ∷ groups) (Memᴰ.tail m) h =
    ground (arith, seqs_with-mem code key groups m h)

-- Two different members make two.
two_members :
    (s t : Text) (xs : List Text)
    → any (text_eq s) xs ≡ true
    → any (text_eq t) xs ≡ true
    → text_eq s t ≡ false
    → 2 ≤ length xs
two_members s t [] h k d = absurd (ground (arith, h))
two_members s t (x ∷ []) h k d =
    let first : s ≡ x = text_eq_sound s x (ground (arith, h)) in
    let second : t ≡ x = text_eq_sound t x (ground (arith, k)) in
    let same : text_eq s t ≡ true = rw (first, second) (text_eq_refl x) in
    absurd (ground (arith, same, d))
two_members s t (x ∷ y ∷ xs) h k d = omega arith

mem_of_map :
    {A B : Type 0} (f : A → B) {y : B} (xs : List A)
    → Memᴰ y (map f xs)
    → (x : A) × Memᴰ x xs × (y ≡ f x)
mem_of_map f [] m = elim m [ ]
mem_of_map f (x ∷ xs) (Memᴰ.head e) = (x, Memᴰ.head refl, e)
mem_of_map f (x ∷ xs) (Memᴰ.tail m) = let (z, k, e) = mem_of_map f xs m in (z, Memᴰ.tail k, e)

text_eq_symm : (s t : Text) → text_eq s t ≡ false → text_eq t s ≡ false
text_eq_symm s t h = elim (Bool-cases (text_eq t s)) [
  | inl e ↦
      let same : s ≡ t = sym (text_eq_sound t s e) in
      let found : text_eq s t ≡ true = rw same (text_eq_refl t) in absurd (ground (arith, found, h))
  | inr e ↦ e
]

-- The marking leaves the fields by which courses are compared.
mark-fields :
    (pairs : List Pair) (g : SeqGroup)
    → ((mark pairs g).seq ≡ g.seq)
      × ((mark pairs g).course_code ≡ g.course_code)
      × ((mark pairs g).admin_key ≡ g.admin_key)
mark-fields pairs g = elim (Bool-cases (any (skips g.seq) pairs)) [
  | inl e ↦ rw e (refl, refl, refl)
  | inr e ↦ rw e (refl, refl, refl)
]

-- Of two such courses the first is marked.
mark-skipped :
    (groups : List SeqGroup) (g h : SeqGroup)
    → Memᴰ g groups
    → Memᴰ h groups
    → text_eq g.seq h.seq ≡ false
    → text_eq g.admin_key [] ≡ false
    → of_pair g.course_code g.admin_key h ≡ true
    → (mark (collect_pairs groups []) g).skipped ≡ true
mark-skipped groups g h mg mh differ some_class same =
    let self : of_pair g.course_code g.admin_key g ≡ true =
      ground (arith, text_eq_refl g.course_code, text_eq_refl g.admin_key) in
    let listed = seqs_of-collect_pairs g.course_code g.admin_key groups [] some_class in
    let here = seqs_with-mem g.course_code g.admin_key groups mg self in
    let there = seqs_with-mem g.course_code g.admin_key groups mh same in
    let long =
      two_members g.seq h.seq (seqs_with g.course_code g.admin_key groups) here there differ in
    let skip =
      seqs_of-skips g.course_code g.admin_key g.seq (collect_pairs groups []) (rw listed long)
        (rw listed here) in
    rw skip refl

-- The same of two courses as the marking leaves them.
marked-skipped :
    (groups : List SeqGroup) (g h : SeqGroup)
    → Memᴰ g (mark_parallel groups).0
    → Memᴰ h (mark_parallel groups).0
    → text_eq g.seq h.seq ≡ false
    → text_eq g.admin_key [] ≡ false
    → of_pair g.course_code g.admin_key h ≡ true
    → g.skipped ≡ true
unfolding mark_parallel
marked-skipped groups g h mg mh differ some_class same =
    let pairs = collect_pairs groups [] in
    let (x, mx, ex) = mem_of_map (mark pairs) groups mg in
    let (y, my, ey) = mem_of_map (mark pairs) groups mh in
    let (seq_x, code_x, key_x) = mark-fields pairs x in
    let (seq_y, code_y, key_y) = mark-fields pairs y in
    let seq_g : g.seq ≡ x.seq = ap (λ z. z.seq) ex ∙ seq_x in
    let seq_h : h.seq ≡ y.seq = ap (λ z. z.seq) ey ∙ seq_y in
    let code_g : g.course_code ≡ x.course_code = ap (λ z. z.course_code) ex ∙ code_x in
    let code_h : h.course_code ≡ y.course_code = ap (λ z. z.course_code) ey ∙ code_y in
    let key_g : g.admin_key ≡ x.admin_key = ap (λ z. z.admin_key) ex ∙ key_x in
    let key_h : h.admin_key ≡ y.admin_key = ap (λ z. z.admin_key) ey ∙ key_y in
    ap (λ z. z.skipped) ex
    ∙ mark-skipped groups x y mx my (rw (seq_g, seq_h) at differ) (rw key_g at some_class)
        (rw (code_g, code_h, key_g, key_h) at same)

of_pair_symm :
    (g h : SeqGroup)
    → of_pair g.course_code g.admin_key h ≡ true
    → (of_pair h.course_code h.admin_key g ≡ true) × (h.admin_key ≡ g.admin_key)
of_pair_symm g h same =
    let code : h.course_code ≡ g.course_code =
      text_eq_sound h.course_code g.course_code (ground (arith, same)) in
    let key : h.admin_key ≡ g.admin_key =
      text_eq_sound h.admin_key g.admin_key (ground (arith, same)) in
    (rw (code, key) (ground (arith, text_eq_refl g.course_code, text_eq_refl g.admin_key)), key)

-- Of two different courses, as the marking leaves them, that have the same code and the same set of
-- classes, which is not empty, both are skipped: no two courses that are kept are parallel.
pub mark_parallel-both :
    (groups : List SeqGroup) (g h : SeqGroup)
    → Memᴰ g (mark_parallel groups).0
    → Memᴰ h (mark_parallel groups).0
    → text_eq g.seq h.seq ≡ false
    → text_eq g.admin_key [] ≡ false
    → of_pair g.course_code g.admin_key h ≡ true
    → (g.skipped ≡ true) × (h.skipped ≡ true)
mark_parallel-both groups g h mg mh differ some_class same =
    let (back, key) = of_pair_symm g h same in
    (
      marked-skipped groups g h mg mh differ some_class same,
      marked-skipped groups h g mh mg (text_eq_symm g.seq h.seq differ)
          (ap (λ k. text_eq k []) key ∙ some_class) back,
    )
