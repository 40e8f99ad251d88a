-- ===== src/Http.antt =====
-- What a handler answers: backend/internal/httpx/respond.go. A status code with the value that is
-- encoded as the body, or with the message of the error envelope.
use Prim.Native.String.{String}
use ocm.Prelude.{ℕ}

pub data Response {ℓ} (A : Type ℓ) : Type ℓ where
  json : ℕ → A → Response A
  error : ℕ → String → Response A

abbrev pub status_code {ℓ} : {A : Type ℓ} → Response A → ℕ
status_code (json n a) = n
status_code (error n m) = n
