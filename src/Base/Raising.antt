-- ===== src/Base/Raising.antt =====
-- The `do` blocks of functions that may raise and write no object.
use agentic_sdlc.Base.Results.{Result, on_ok}

infixl 5 ◌>>=◌ ◌>>◌
abbrev pub ◌>>=◌ {ℓ κ} : {A : Type ℓ} {B : Type κ} → Result A → (A → Result B) → Result B
◌>>=◌ r f = on_ok r f

abbrev pub ◌>>◌ {ℓ κ} : {A : Type ℓ} {B : Type κ} → Result A → Result B → Result B
◌>>◌ r s = on_ok r (λ _. s)
