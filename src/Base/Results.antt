-- ===== src/Base/Results.antt =====
-- Exceptions as values, and methods that mutate an object and may raise: what was written before
-- a raise stays written, so the state comes back beside the error too.
use Prim.Native.String.{String}
use mathlib.Core.Path.{◌≡◌, refl}
use mathlib.Core.Bool.{Bool, true, false}
use mathlib.Core.Logic.{◌⊎◌, inl, inr}

-- The exception classes of the modelled modules, each with its message.
pub data Error : Type 0 where
  orchestration_error : String → Error
  work_graph_error : String → Error
  dispatch_error : String → Error
  checkpoint_error : String → Error
  mission_error : String → Error
  recovery_error : String → Error
  value_error : String → Error
  key_error : String → Error

pub data Result {ℓ} (A : Type ℓ) : Type ℓ where
  ok : A → Result A
  err : Error → Result A

abbrev pub Exec {ℓ} : Type ℓ → Type ℓ → Type ℓ
Exec S A = S → Result A × S

abbrev pub and_then {ℓ} : {S A B : Type ℓ} → Result A × S → (A → Exec S B) → Result B × S
and_then (ok a, s) f = f a s
and_then (err e, s) f = (err e, s)

infixl 5 ◌>>=◌ ◌>>◌
abbrev pub ◌>>=◌ {ℓ} : {S A B : Type ℓ} → Exec S A → (A → Exec S B) → Exec S B
◌>>=◌ m f s = and_then (m s) f

abbrev pub ◌>>◌ {ℓ} : {S A B : Type ℓ} → Exec S A → Exec S B → Exec S B
◌>>◌ m n s = and_then (m s) (λ _. n)

abbrev pub pure {ℓ} : {S A : Type ℓ} → A → Exec S A
pure a s = (ok a, s)

abbrev pub raise {ℓ} : {S A : Type ℓ} → Error → Exec S A
raise e s = (err e, s)

abbrev pub gets {ℓ} : {S A : Type ℓ} → (S → A) → Exec S A
gets f s = (ok (f s), s)

-- A statement that only changes the state.
abbrev pub modify : {S : Type 0} → (S → S) → Exec S (Unit {0})
modify f s = (ok tt, f s)

-- `if not condition: raise error`
abbrev pub require : {S : Type 0} → Bool → Error → Exec S (Unit {0})
require true e s = (ok tt, s)
require false e s = (err e, s)

-- A statement behind a call that may raise, where no object is written.
unfoldable pub on_ok {ℓ κ} : {A : Type ℓ} → {B : Type κ} → Result A → (A → Result B) → Result B
on_ok (ok a) f = f a
on_ok (err e) f = err e

-- A pure call that may raise.
abbrev pub lift {ℓ} : {S A : Type ℓ} → Result A → Exec S A
lift r s = (r, s)

pub Result-cases {ℓ} :
    {A : Type ℓ} (r : Result A) → ((a : A) × (r ≡ ok a)) ⊎ ((e : Error) × (r ≡ err e))
Result-cases (ok a) = inl (a, refl)
Result-cases (err e) = inr (e, refl)

-- what a chain of statements has returned
pub on_ok-ok {ℓ κ} :
    {A : Type ℓ} {B : Type κ} (r : Result A) (f : A → Result B) (b : B)
    → on_ok r f ≡ ok b
    → (a : A) × (r ≡ ok a) × (f a ≡ ok b)
unfolding on_ok
on_ok-ok (ok a) f b h = (a, refl, h)
on_ok-ok (err e) f b h = cc

-- the same, for a proof of what the value that is returned fulfils
pub after {ℓ κ μ} :
    {A : Type ℓ} {B : Type κ} {P : Type μ} {r : Result A} {f : A → Result B} {b : B}
    → on_ok r f ≡ ok b
    → ((a : A) → r ≡ ok a → f a ≡ ok b → P)
    → P
after {r = r} {f} {b} h k = let (a, done, rest) = on_ok-ok r f b h in k a done rest

module _ {S B : Type 0} (b : B) (P : Type 0) where
  -- A chain that returned has passed its first test.
  pub passed :
      (t : Bool) (e : Error) (f : Unit {0} → Exec S B) (s : S)
      → (and_then (require t e s) f).0 ≡ ok b
      → (t ≡ true → (f tt s).0 ≡ ok b → P)
      → P
  passed true e f s h k = k refl h
  passed false e f s h k = cc

  -- A chain that returned has the value of its first call.
  pub returned :
      {A : Type 0} (m : Result A × S) (f : A → Exec S B)
      → (and_then m f).0 ≡ ok b
      → ((a : A) → m.0 ≡ ok a → (f a m.1).0 ≡ ok b → P)
      → P
  returned (ok a, s) f h k = k a refl h
  returned (err e, s) f h k = cc
