-- ===== src/Iam/Examples.antt =====
-- The theorems on effective permissions for a teacher, and a test of expiry.
use ocm.Prelude.{ℕ, ◌≡◌, refl, ◌||◌, List, [], ◌∷◌, some, none}
use ocm.Http.{Response, json}
use ocm.Authz.{Subject, has, wildcard}
use ocm.Prelude.Ordered.{dedup, sort, insert}
use ocm.Iam.{
  Role, RoleGrant, PermGrant, effective, add_perms, add_role, merge_roles, merge_perms, collapse,
}
use ocm.Iam.Grants.{granted, subject_of, has-effective}

abbrev teacher : Role
teacher = record {
  id = 3;
  code = "teacher";
  name = [];
  perms = "classroom:book" ∷ "course:read" ∷ [];
}

abbrev direct : List RoleGrant
direct = record { role = teacher; expires_at = none } ∷ []

abbrev expired : List PermGrant
expired = record { permission = "iot:control"; expires_at = some 50 } ∷ []

abbrev somebody : Subject
somebody = record { id = 9; username = []; permissions = []; roles = []; groups = [] }

has-effective_example :
    has (subject_of somebody (effective 60 direct [] expired (4 ∷ 2 ∷ 4 ∷ []))) "classroom:book"
    ≡ (granted 60 direct [] expired wildcard || granted 60 direct [] expired "classroom:book")
has-effective_example =
    has-effective 60 direct [] expired (4 ∷ 2 ∷ 4 ∷ []) somebody "classroom:book"

abbrev answer : Response ℕ
answer = json 200 1

group_ids_sorted : (effective 60 direct [] expired (4 ∷ 2 ∷ 4 ∷ [])).group_ids ≡ 2 ∷ 4 ∷ []
unfolding effective merge_roles merge_perms add_perms add_role collapse dedup sort insert
group_ids_sorted = refl
