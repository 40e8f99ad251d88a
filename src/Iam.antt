-- ===== src/Iam.antt =====
-- backend/internal/iam/effective.go over the grants of backend/internal/iam/model.go.
pub mod Grants
pub mod Groups
mod Examples
use Prim.Native.String.{String}
use ocm.Prelude.{
  ℕ, Bool, true, false, not, ◌&&◌, List, [], ◌∷◌, ◌++◌, Option, some, none, any, elem, leb, ltb,
  ◌==◌, if◌then◌else◌,
}
use ocm.Prelude.Ordered.{dedup, sort}
use ocm.Prelude.Text.{Text}
use ocm.Authz.{wildcard, in_set}

pub record Role : Type 0 where
  pub id : ℕ
  pub code : String
  pub name : Text
  pub perms : List String

pub record RoleGrant : Type 0 where
  pub role : Role
  pub expires_at : Option ℕ

pub record PermGrant : Type 0 where
  pub permission : String
  pub expires_at : Option ℕ

pub record EffectiveResult : Type 0 where
  pub permissions : List String
  pub roles : List Role
  pub group_ids : List ℕ

-- `expiresAt == nil || expiresAt.After(now)`.
abbrev pub alive : ℕ → Option ℕ → Bool
alive now none = true
alive now (some t) = ltb now t

-- `permissions[perm] = true`.
abbrev pub add_perm : String → List String → List String
add_perm p ps = if in_set p ps then ps else p ∷ ps

unfoldable pub add_perms : List String → List String → List String
add_perms [] ps = ps
add_perms (q ∷ qs) ps = add_perms qs (add_perm q ps)

-- `addRole`: the first role of an id is kept, in order.
unfoldable pub add_role : Role → List Role → List Role
add_role r rs = if any (λ x. x.id == r.id) rs then rs else rs ++ r ∷ []

pub record Merged : Type 0 where
  pub permissions : List String
  pub roles : List Role

-- The loop over the role grants, and the loop over the direct permissions.
unfoldable pub merge_roles : ℕ → List RoleGrant → Merged → Merged
merge_roles now [] m = m
merge_roles now (g ∷ gs) m = merge_roles now gs (
    if alive now g.expires_at
    then record {
      permissions = add_perms g.role.perms m.permissions;
      roles = add_role g.role m.roles;
    }
    else m)

unfoldable pub merge_perms : ℕ → List PermGrant → List String → List String
merge_perms now [] ps = ps
merge_perms now (g ∷ gs) ps =
    merge_perms now gs (if alive now g.expires_at then add_perm g.permission ps else ps)

unfoldable pub collapse : List String → List String
collapse ps = if in_set wildcard ps then wildcard ∷ [] else ps

unfoldable pub effective :
    ℕ → List RoleGrant → List RoleGrant → List PermGrant → List ℕ → EffectiveResult
effective now direct_roles group_roles direct_perms group_ids =
    let m =
      merge_roles now (direct_roles ++ group_roles) (record { permissions = []; roles = [] }) in
    record {
      permissions = collapse (merge_perms now direct_perms m.permissions);
      roles = m.roles;
      group_ids = sort (dedup group_ids []);
    }
