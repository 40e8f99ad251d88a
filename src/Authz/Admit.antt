-- ===== src/Authz/Admit.antt =====
-- Whom the middlewares admit.
use Prim.Native.String.{String}
use text.Mathlib.Text.{◌==◌ as str_eq}
use text.Mathlib.TextEquality.{eq_iff}
use mathlib.Core.List.{Memᴰ}
use ocm.Prelude.{
  ◌≡◌, ◌⊎◌, refl, sym, inl, inr, true, List, [], ◌∷◌, Option, some, none, Bool-cases, arith,
}
use ocm.Http.{Response, error}
use ocm.Authz.{
  Subject, has, wildcard, in_set, any_held, require_permission, require_admin, require_any,
}

-- A subject was granted a permission, by its name or by the wildcard.
abbrev pub Granted : Subject → String → Type 0
Granted s p = Memᴰ "*" s.permissions ⊎ Memᴰ p s.permissions

-- The answer to a request whose subject has to satisfy `P`, where `next` is that of the handler.
pub data Guarded {ℓ} {A : Type ℓ} (P : Subject → Type 0) (next : Response A)
    : Option Subject → Response A → Type ℓ where
  unknown : Guarded P next none (error 401 "not authenticated")
  admitted : (s : Subject) → P s → Guarded P next (some s) next
  denied : (s : Subject) → ¬ P s → Guarded P next (some s) (error 403 "insufficient permissions")

in_set-Mem : (p : String) (ps : List String) → in_set p ps ≡ true → Memᴰ p ps
in_set-Mem p [] h = absurd (ground (arith, h))
in_set-Mem p (q ∷ ps) h = elim (Bool-cases (str_eq q p)) [
  | inl e ↦ Memᴰ.head (sym ((eq_iff q p).0 e))
  | inr e ↦ Memᴰ.tail (in_set-Mem p ps (rw e at h))
]

Mem-in_set : (p : String) (ps : List String) → Memᴰ p ps → in_set p ps ≡ true
Mem-in_set p [] m = elim m [ ]
Mem-in_set p (q ∷ ps) (Memᴰ.head e) = let same = (eq_iff q p).1 (sym e) in rw same refl
Mem-in_set p (q ∷ ps) (Memᴰ.tail m) = ground (arith, Mem-in_set p ps m)

has-Granted : (s : Subject) (p : String) → has s p ≡ true → Granted s p
unfolding has
has-Granted s p h = elim (Bool-cases (in_set wildcard s.permissions)) [
  | inl e ↦ inl (in_set-Mem wildcard s.permissions e)
  | inr e ↦ inr (in_set-Mem p s.permissions (rw (has, e) at h))
]

Granted-has : (s : Subject) (p : String) → Granted s p → has s p ≡ true
unfolding has
Granted-has s p (inl m) = let e = Mem-in_set wildcard s.permissions m in ground (arith, e)
Granted-has s p (inr m) = let e = Mem-in_set p s.permissions m in ground (arith, e)

-- Some permission of the list was granted.
abbrev pub AnyGranted : List String → Subject → Type 0
AnyGranted ps s = (p : String) × Memᴰ p ps × Granted s p

any_held-Granted : (s : Subject) (ps : List String) → any_held s ps ≡ true → AnyGranted ps s
unfolding any_held
any_held-Granted s [] h = absurd (ground (arith, h))
any_held-Granted s (p ∷ ps) h = elim (Bool-cases (has s p)) [
  | inl e ↦ (p, Memᴰ.head refl, has-Granted s p e)
  | inr e ↦ let (q, m, g) = any_held-Granted s ps (rw (any_held, e) at h) in (q, Memᴰ.tail m, g)
]

Granted-any_held :
    (s : Subject) (ps : List String) (p : String) → Memᴰ p ps → Granted s p → any_held s ps ≡ true
unfolding any_held
Granted-any_held s [] p m g = elim m [ ]
Granted-any_held s (q ∷ ps) p (Memᴰ.head e) g =
    let held : has s q ≡ true = rw e at (Granted-has s p g) in rw held refl
Granted-any_held s (q ∷ ps) p (Memᴰ.tail m) g = elim (Bool-cases (has s q)) [
  | inl h ↦ rw h refl
  | inr h ↦ rw h (Granted-any_held s ps p m g)
]

-- What the three middlewares answer, for every subject or none: without a subject 401; to a subject
-- that was granted what they ask for, by its name or by the wildcard, what the handler answers; to
-- any other 403. `RequireAdmin` asks for the wildcard, `RequirePermission` for one permission, and
-- `RequireAny` for some permission of a list.
pub middleware-Guarded {ℓ} :
    {A : Type ℓ} (subject : Option Subject) (p : String) (ps : List String) (next : Response A)
    → Guarded (λ s. Memᴰ "*" s.permissions) next subject (require_admin subject next)
      × Guarded (λ s. Granted s p) next subject (require_permission p subject next)
      × Guarded (AnyGranted ps) next subject (require_any ps subject next)
unfolding require_admin require_permission require_any
middleware-Guarded none p ps next = (unknown, unknown, unknown)
middleware-Guarded (some s) p ps next = (
  elim (Bool-cases (has s wildcard)) [
    | inl e ↦ rw e (admitted s (elim (has-Granted s wildcard e) [ inl m ↦ m | inr m ↦ m ]))
    | inr e ↦
        rw e (denied s (λ m. let held = Granted-has s wildcard (inl m) in ground (arith, e, held)))
  ],
  elim (Bool-cases (has s p)) [
    | inl e ↦ rw e (admitted s (has-Granted s p e))
    | inr e ↦ rw e (denied s (λ g. let held = Granted-has s p g in ground (arith, e, held)))
  ],
  elim (Bool-cases (any_held s ps)) [
    | inl e ↦ rw e (admitted s (any_held-Granted s ps e))
    | inr e ↦
        rw e (
          denied s (λ (q, m, g). let held = Granted-any_held s ps q m g in ground (arith, e, held)))
  ],
)
