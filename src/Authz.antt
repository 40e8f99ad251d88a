-- ===== src/Authz.antt =====
-- backend/internal/authz/authz.go: the subject of a request and the middlewares that admit it.
pub mod Admit
mod Examples
use Prim.Native.String.{String}
use text.Mathlib.Text.{◌==◌ as str_eq}
use ocm.Prelude.{
  ℕ, Bool, true, false, ◌&&◌, ◌||◌, List, [], ◌∷◌, Option, some, none, any, if◌then◌else◌,
}
use ocm.Prelude.Text.{Text}
use ocm.Http.{Response, json, error}

abbrev pub wildcard : String
wildcard = "*"

abbrev pub booking_approve : String
booking_approve = "booking:approve"

-- A `map[string]bool` of permissions is the list of its keys that are true.
abbrev pub in_set : String → List String → Bool
in_set p = any (λ q. str_eq q p)

pub record Subject : Type 0 where
  pub id : ℕ
  pub username : Text
  pub permissions : List String
  pub roles : List String
  pub groups : List ℕ

unfoldable pub has : Subject → String → Bool
has s p = in_set wildcard s.permissions || in_set p s.permissions

-- The loop of `RequireAny`.
unfoldable pub any_held : Subject → List String → Bool
any_held s [] = false
any_held s (p ∷ ps) = if has s p then true else any_held s ps

-- The middlewares: the subject that the context holds, and the answer of the handler behind.
module _ {ℓ} {A : Type ℓ} where
  unfoldable pub require_permission : String → Option Subject → Response A → Response A
  require_permission p none next = error 401 "not authenticated"
  require_permission p (some s) next =
      if has s p then next else error 403 "insufficient permissions"

  unfoldable pub require_admin : Option Subject → Response A → Response A
  require_admin none next = error 401 "not authenticated"
  require_admin (some s) next =
      if has s wildcard then next else error 403 "insufficient permissions"

  unfoldable pub require_any : List String → Option Subject → Response A → Response A
  require_any ps none next = error 401 "not authenticated"
  require_any ps (some s) next =
      if any_held s ps then next else error 403 "insufficient permissions"
