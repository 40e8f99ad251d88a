-- ===== src/Authz/Examples.antt =====
-- The theorems on the middlewares at a concrete subject.
use mathlib.Core.List.{Memᴰ}
use ocm.Prelude.{ℕ, [], ◌∷◌, some}
use ocm.Http.{Response, json, error}
use ocm.Authz.{Subject, require_admin, require_permission, require_any, any_held, has}
use ocm.Authz.Admit.{Granted, AnyGranted, Guarded, middleware-Guarded}

abbrev answer : Response ℕ
answer = json 200 7

abbrev clerk : Subject
clerk = record { id = 2; username = []; permissions = "log:read" ∷ []; roles = []; groups = [] }

middleware-Guarded_example :
    Guarded (λ s. Memᴰ "*" s.permissions) answer (some clerk) (error 403 "insufficient permissions")
    × Guarded
        (λ s. Granted s "iot:control")
        answer
        (some clerk)
        (error 403 "insufficient permissions")
    × Guarded (AnyGranted ("user:manage" ∷ "log:read" ∷ [])) answer (some clerk) answer
unfolding require_admin require_permission require_any any_held has
middleware-Guarded_example =
    middleware-Guarded (some clerk) "iot:control" ("user:manage" ∷ "log:read" ∷ []) answer
