-- ===== src/Base/Lists.antt =====
-- Lists over the native numbers, sets of texts, and dictionaries in insertion order.
use Prim.Native.Nat.{ℕ, suc, ◌+◌}
use Prim.Native.String.{String, compare}
use mathlib.Core.Path.{◌≡◌, refl, ap}
use mathlib.Core.Logic.{inl, inr, ◌↔◌}
use mathlib.Core.Bool.{Bool, true, false, not, ◌&&◌, ◌||◌}
use mathlib.Core.Option.{Option, none, some}
use mathlib.Core.List.{List, [], ◌∷◌, ◌++◌}
use native.Mathlib.Omega.{arith}
use text.Mathlib.Text.{◌==◌, is_le}
use agentic_sdlc.Base.Tests.{if◌then◌else◌, Bool-cases}
use agentic_sdlc.Base.Text.{same_codes}

module _ {ℓ} {A : Type ℓ} where
  abbrev pub length : List A → ℕ
  length [] = 0
  length (x ∷ xs) = suc (length xs)

  abbrev pub all : (A → Bool) → List A → Bool
  all p [] = true
  all p (x ∷ xs) = p x && all p xs

  abbrev pub any : (A → Bool) → List A → Bool
  any p [] = false
  any p (x ∷ xs) = p x || any p xs

  -- [x for x in xs if p x]
  abbrev pub keep : (A → Bool) → List A → List A
  keep p [] = []
  keep p (x ∷ xs) = let rest = keep p xs in if p x then x ∷ rest else rest

  abbrev pub count_if : (A → Bool) → List A → ℕ
  count_if p [] = 0
  count_if p (x ∷ xs) = if p x then suc (count_if p xs) else count_if p xs

  abbrev pub is_empty : List A → Bool
  is_empty [] = true
  is_empty (x ∷ xs) = false

  -- next((x for x in xs if p x), None)
  abbrev pub find_first : (A → Bool) → List A → Option A
  find_first p [] = none
  find_first p (x ∷ xs) = let rest = find_first p xs in if p x then some x else rest

  abbrev pub All {κ} : (A → Type κ) → List A → Type κ
  All P [] = Unit
  All P (x ∷ xs) = P x × All P xs

  pub length-append : (xs ys : List A) → length (xs ++ ys) ≡ length xs + length ys
  length-append [] ys = omega arith
  length-append (x ∷ xs) ys = omega (arith, length-append xs ys)

  pub All-append {κ} : (P : A → Type κ) (xs ys : List A) → All P xs → All P ys → All P (xs ++ ys)
  All-append P [] ys hx hy = hy
  All-append P (x ∷ xs) ys hx hy = (hx.0, All-append P xs ys hx.1 hy)

-- `x in xs`, for texts
abbrev pub member : String → List String → Bool
member k [] = false
member k (x ∷ xs) = x == k || member k xs

-- s.add(k)
abbrev pub insert : String → List String → List String
insert k xs = if member k xs then xs else k ∷ xs

-- list(dict.fromkeys(xs)): the first of each
unfoldable pub distinct : List String → List String
distinct [] = []
distinct (x ∷ xs) = x ∷ keep (λ y. not (x == y)) (distinct xs)

abbrev insert_sorted : String → List String → List String
insert_sorted k [] = k ∷ []
insert_sorted k (x ∷ xs) =
    let rest = insert_sorted k xs in if is_le (compare k x) then k ∷ x ∷ xs else x ∷ rest

-- sorted(xs): texts compare by code points
abbrev pub sorted : List String → List String
sorted [] = []
sorted (x ∷ xs) = insert_sorted x (sorted xs)

-- Nothing is kept exactly when every element fails the test.
pub keep_none {ℓ} :
    {A : Type ℓ} (p : A → Bool) (xs : List A)
    → (is_empty (keep p xs) ≡ true) ↔ All (λ x. p x ≡ false) xs
keep_none p [] = ((λ _. tt), (λ _. refl))
keep_none p (x ∷ xs) = elim (Bool-cases (p x)) [
  | inl hit ↦ rw hit ((λ h. cc), (λ h. cc))
  | inr miss ↦ rw miss ((λ h. (refl, (keep_none p xs).0 h)), (λ h. (keep_none p xs).1 h.1))
]

-- a <= b, for texts
abbrev pub is_at_most : String → String → Bool
is_at_most a b = is_le (compare a b)

is_empty-insert_sorted : (k : String) (xs : List String) → is_empty (insert_sorted k xs) ≡ false
is_empty-insert_sorted k [] = refl
is_empty-insert_sorted k (x ∷ xs) = elim (Bool-cases (is_at_most k x)) [
  | inl before ↦ rw before refl
  | inr behind ↦ rw behind refl
]

-- a list that is empty when it is sorted is empty
pub is_empty-sorted : (xs : List String) → is_empty (sorted xs) ≡ true → is_empty xs ≡ true
is_empty-sorted [] h = refl
is_empty-sorted (x ∷ xs) h = ground (arith, is_empty-insert_sorted x (sorted xs))

member-insert_sorted :
    (k x : String) (xs : List String) → member k (insert_sorted x xs) ≡ (x == k || member k xs)
member-insert_sorted k x [] = refl
member-insert_sorted k x (y ∷ ys) = ground (arith, member-insert_sorted k x ys)

pub member-sorted : (k : String) (xs : List String) → member k (sorted xs) ≡ member k xs
member-sorted k [] = refl
member-sorted k (x ∷ xs) = ground (arith, member-insert_sorted k x (sorted xs), member-sorted k xs)

length-insert_sorted :
    (x : String) (xs : List String) → length (insert_sorted x xs) ≡ suc (length xs)
length-insert_sorted x [] = refl
length-insert_sorted x (y ∷ ys) = ground (arith, length-insert_sorted x ys)

pub length-sorted : (xs : List String) → length (sorted xs) ≡ length xs
length-sorted [] = refl
length-sorted (x ∷ xs) = omega (arith, length-insert_sorted x (sorted xs), length-sorted xs)

pub append_nil {ℓ} : {A : Type ℓ} (xs : List A) → xs ++ [] ≡ xs
append_nil [] = refl
append_nil (x ∷ xs) = ap (λ r. x ∷ r) (append_nil xs)

pub append_assoc {ℓ} :
    {A : Type ℓ} (xs : List A) (y : A) (ys : List A) → (xs ++ y ∷ []) ++ ys ≡ xs ++ y ∷ ys
append_assoc [] y ys = refl
append_assoc (x ∷ xs) y ys = ap (λ r. x ∷ r) (append_assoc xs y ys)

-- The comparison of code points is that of the lists.
pub same_codes_iff : (xs ys : List ℕ) → (same_codes xs ys ≡ true) ↔ (xs ≡ ys)
same_codes_iff [] [] = ground arith
same_codes_iff [] (y ∷ ys) = ground arith
same_codes_iff (x ∷ xs) [] = ground arith
same_codes_iff (x ∷ xs) (y ∷ ys) = ground (arith, same_codes_iff xs ys)
