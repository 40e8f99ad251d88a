-- ===== src/Iam/Groups.antt =====
-- The group ids and the roles of the merged result.
use ocm.Prelude.{
  ℕ, ◌≡◌, refl, ap, Bool, true, false, ◌&&◌, ◌||◌, List, [], ◌∷◌, ◌++◌, any, any-append, elem, ◌==◌,
  arith, Bool-cases, inl, inr,
}
use ocm.Prelude.Ordered.{Ascending, sort_set}
use ocm.Iam.{Role, RoleGrant, PermGrant, alive, add_role, Merged, merge_roles, effective}

-- The group ids of the result rise strictly, and are exactly the ids that were given.
pub effective_groups :
    (now : ℕ) (direct group : List RoleGrant) (ds : List PermGrant) (ids : List ℕ)
    → let r = effective now direct group ds ids in
      Ascending r.group_ids × ((k : ℕ) → elem k r.group_ids ≡ elem k ids)
unfolding effective
effective_groups now direct group ds ids = sort_set ids

abbrev pub role_listed : ℕ → List Role → Bool
role_listed k = any (λ r. r.id == k)

role_same : (i k : ℕ) (rs : List Role) → (i == k) ≡ true → role_listed i rs ≡ role_listed k rs
role_same i k rs e = let same : i ≡ k = ground arith in ap (λ x. role_listed x rs) same

role_listed-merge_roles :
    (now k : ℕ) (gs : List RoleGrant) (m : Merged)
    → role_listed k (merge_roles now gs m).roles
      ≡ (any (λ g. alive now g.expires_at && g.role.id == k) gs || role_listed k m.roles)
unfolding merge_roles add_role
role_listed-merge_roles now k [] m = refl
role_listed-merge_roles now k (g ∷ gs) m = rw (role_listed-merge_roles now k gs _) (
    ground
      (arith, role_same g.role.id k m.roles, any-append (λ r. r.id == k) m.roles (g.role ∷ [])))

abbrev pub Unique : List Role → Type 0
Unique [] = Unit
Unique (r ∷ rs) = (role_listed r.id rs ≡ false) × Unique rs

Unique-snoc :
    (rs : List Role) (r : Role) → Unique rs → role_listed r.id rs ≡ false → Unique (rs ++ r ∷ [])
Unique-snoc [] r u h = (refl, tt)
Unique-snoc (x ∷ rs) r u h = (
  rw (any-append (λ y. y.id == x.id) rs (r ∷ [])) (ground arith),
  Unique-snoc rs r u.1 (ground arith),
)

merge_roles-Unique :
    (now : ℕ) (gs : List RoleGrant) (m : Merged)
    → Unique m.roles
    → Unique (merge_roles now gs m).roles
unfolding merge_roles add_role
merge_roles-Unique now [] m u = u
merge_roles-Unique now (g ∷ gs) m u =
    merge_roles-Unique now gs _ (elim (Bool-cases (alive now g.expires_at)) [
      | inl e ↦ elim (Bool-cases (role_listed g.role.id m.roles)) [
        | inl h ↦ rw (e, h) u
        | inr h ↦ rw (e, h) (Unique-snoc m.roles g.role u h)
      ]
      | inr e ↦ rw e u
    ])
