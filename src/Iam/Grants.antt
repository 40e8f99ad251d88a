-- ===== src/Iam/Grants.antt =====
-- What the merged permission set grants, and which roles it names.
use Prim.Native.String.{String}
use text.Mathlib.Text.{◌==◌ as str_eq}
use text.Mathlib.TextEquality.{eq_iff}
use ocm.Prelude.{
  ℕ, ◌≡◌, refl, sym, ◌∙◌, ap, Bool, true, ◌&&◌, ◌||◌, List, [], ◌∷◌, ◌++◌, any, any-append, arith,
  Bool-cases, inl, inr,
}
use ocm.Authz.{wildcard, in_set, Subject, has}
use ocm.Iam.{
  RoleGrant, PermGrant, EffectiveResult, alive, add_perm, add_perms, Merged, merge_roles,
  merge_perms, collapse, effective,
}

-- Some role grant that is alive at `now` has the permission among its role's.
abbrev pub role_granted : ℕ → List RoleGrant → String → Bool
role_granted now gs p = any (λ g. alive now g.expires_at && in_set p g.role.perms) gs

-- Some direct grant that is alive at `now` is of the permission.
abbrev pub directly_granted : ℕ → List PermGrant → String → Bool
directly_granted now ds p = any (λ d. alive now d.expires_at && str_eq d.permission p) ds

in_set_same : (q p : String) (ps : List String) → str_eq q p ≡ true → in_set q ps ≡ in_set p ps
in_set_same q p ps e = ap (λ x. in_set x ps) ((eq_iff q p).0 e)

in_set-add_perm :
    (p q : String) (ps : List String) → in_set p (add_perm q ps) ≡ (str_eq q p || in_set p ps)
in_set-add_perm p q ps = elim (Bool-cases (in_set q ps)) [
  | inl h ↦ elim (Bool-cases (str_eq q p)) [
    | inl e ↦ rw (h, e) (sym (in_set_same q p ps e) ∙ h)
    | inr e ↦ rw (h, e)
  ]
  | inr h ↦ rw h
]

in_set-add_perms :
    (p : String) (qs ps : List String) → in_set p (add_perms qs ps) ≡ (in_set p qs || in_set p ps)
unfolding add_perms
in_set-add_perms p [] ps = refl
in_set-add_perms p (q ∷ qs) ps =
    ground (arith, in_set-add_perms p qs (add_perm q ps), in_set-add_perm p q ps)

in_set-merge_roles :
    (now : ℕ) (p : String) (gs : List RoleGrant) (m : Merged)
    → in_set p (merge_roles now gs m).permissions
      ≡ (role_granted now gs p || in_set p m.permissions)
unfolding merge_roles
in_set-merge_roles now p [] m = refl
in_set-merge_roles now p (g ∷ gs) m =
    rw (in_set-merge_roles now p gs _)
      (ground (arith, in_set-add_perms p g.role.perms m.permissions))

in_set-merge_perms :
    (now : ℕ) (p : String) (ds : List PermGrant) (ps : List String)
    → in_set p (merge_perms now ds ps) ≡ (directly_granted now ds p || in_set p ps)
unfolding merge_perms
in_set-merge_perms now p [] ps = refl
in_set-merge_perms now p (d ∷ ds) ps =
    rw (in_set-merge_perms now p ds _) (ground (arith, in_set-add_perm p d.permission ps))

-- With the wildcard in the set everything is held before and after the collapse; without it the
-- collapse changes nothing.
held-collapse :
    (p : String) (ps : List String)
    → (in_set wildcard (collapse ps) || in_set p (collapse ps))
      ≡ (in_set wildcard ps || in_set p ps)
unfolding collapse
held-collapse p ps = elim (Bool-cases (in_set wildcard ps)) [ inl h ↦ rw h | inr h ↦ rw (h, h) ]

-- The subject that the merged set is given to.
abbrev pub subject_of : Subject → EffectiveResult → Subject
subject_of s r = record s { permissions = r.permissions }

abbrev pub granted : ℕ → List RoleGrant → List RoleGrant → List PermGrant → String → Bool
granted now direct group ds p =
    role_granted now direct p || role_granted now group p || directly_granted now ds p

-- A subject with the merged permissions holds a permission exactly when the wildcard or the
-- permission itself is granted by a live direct role, a live group role or a live direct grant.
pub has-effective :
    (now : ℕ) (direct group : List RoleGrant) (ds : List PermGrant) (ids : List ℕ) (s : Subject)
    (p : String)
    → has (subject_of s (effective now direct group ds ids)) p
      ≡ (granted now direct group ds wildcard || granted now direct group ds p)
unfolding has effective
has-effective now direct group ds ids s p = rw (held-collapse p (merge_perms now ds _)) (
    ground (
      arith,
      in_set-merge_perms now p ds
          (merge_roles now (direct ++ group) (record { permissions = []; roles = [] })).permissions,
      in_set-merge_perms now wildcard ds
          (merge_roles now (direct ++ group) (record { permissions = []; roles = [] })).permissions,
      in_set-merge_roles now p (direct ++ group) (record { permissions = []; roles = [] }),
      in_set-merge_roles now wildcard (direct ++ group) (record { permissions = []; roles = [] }),
      any-append (λ g. alive now g.expires_at && in_set p g.role.perms) direct group,
      any-append (λ g. alive now g.expires_at && in_set wildcard g.role.perms) direct group,
    ))
