-- ===== src/WorkGraph/Toposort/Members.antt =====
-- Membership in the lists that the sort makes.
use agentic_sdlc.Base.{
  String, ◌≡◌, refl, sym, subst, length, keep_none, All, ◌↔◌, ◌<◌, ◌∙◌, inl, inr, Bool, true, false,
  not, ◌||◌, ◌&&◌, List, [], ◌∷◌, ◌++◌, keep, member, is_empty, ◌==◌, arith, eq_iff, eq_refl,
  Bool-cases,
}
use agentic_sdlc.MergeEvidence.{to_set}

pub member-append :
    (k : String) (xs ys : List String) → member k (xs ++ ys) ≡ (member k xs || member k ys)
member-append k [] ys = refl
member-append k (x ∷ xs) ys = ground (arith, member-append k xs ys)

pub member-keep :
    (k : String) (p : String → Bool) (xs : List String)
    → member k (keep p xs) ≡ (member k xs && p k)
member-keep k p [] = refl
member-keep k p (x ∷ xs) = elim (Bool-cases (x == k)) [
  | inl same ↦ rw ((eq_iff x k).0 same) (ground (arith, member-keep k p xs, eq_refl k))
  | inr other ↦ ground (arith, member-keep k p xs)
]

pub member-to_set : (k : String) (xs : List String) → member k (to_set xs) ≡ member k xs
member-to_set k [] = refl
member-to_set k (x ∷ xs) = elim (Bool-cases (member x (to_set xs))) [
  | inl old ↦ rw old (elim (Bool-cases (x == k)) [
    | inl same ↦ rw same (subst (λ j. member j (to_set xs) ≡ true) ((eq_iff x k).0 same) old)
    | inr other ↦ rw other (member-to_set k xs)
  ])
  | inr new ↦ ground (arith, member-to_set k xs)
]

-- a list is empty if nothing is a member
pub empty_of_members :
    (xs : List String) → is_empty xs ≡ false → (k : String) × (member k xs ≡ true)
empty_of_members [] h = cc
empty_of_members (x ∷ xs) h = (x, rw eq_refl refl)

pub member_of_empty : (k : String) (xs : List String) → is_empty xs ≡ true → member k xs ≡ false
member_of_empty k [] h = refl
member_of_empty k (x ∷ xs) h = cc

pub length_of_given {ℓ} : {A : Type ℓ} (xs : List A) → is_empty xs ≡ false → 0 < length xs
length_of_given [] h = cc
length_of_given (x ∷ xs) h = omega arith

pub All_of_members {ℓ} :
    (P : String → Type ℓ) (xs : List String) → ((x : String) → member x xs ≡ true → P x) → All P xs
All_of_members P [] h = tt
All_of_members P (x ∷ xs) h =
    (h x (ground (arith, eq_refl x)), All_of_members P xs (λ y m. h y (ground arith)))

pub member_of_All {ℓ} :
    (P : String → Type ℓ) (xs : List String) → All P xs → (x : String) → member x xs ≡ true → P x
member_of_All P [] h x m = absurd cc
member_of_All P (y ∷ ys) h x m = elim (Bool-cases (y == x)) [
  | inl same ↦ subst P ((eq_iff y x).0 same) h.0
  | inr other ↦ member_of_All P ys h.1 x (ground arith)
]

-- nothing is missing from the second list exactly when it has all of the first
pub none_missing :
    (xs ys : List String)
    → (is_empty (keep (λ x. not (member x ys)) (to_set xs)) ≡ true)
      ↔ All (λ x. member x ys ≡ true) xs
none_missing xs ys =
    let none = keep_none (λ x. not (member x ys)) (to_set xs) in
    (
      (λ h.
          All_of_members (λ x. member x ys ≡ true) xs
            λ x m.
              let there =
                member_of_All (λ z. not (member z ys) ≡ false) (to_set xs) (none.0 h) x
                  (member-to_set x xs ∙ m) in
              ground arith),
      (λ h. none.1 (
          All_of_members (λ z. not (member z ys) ≡ false) (to_set xs)
            λ x m.
              let there =
                member_of_All (λ z. member z ys ≡ true) xs h x (sym (member-to_set x xs) ∙ m) in
              ground arith)),
    )
