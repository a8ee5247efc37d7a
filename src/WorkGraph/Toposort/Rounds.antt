-- ===== src/WorkGraph/Toposort/Rounds.antt =====
-- What one round of the sort does to `remaining`.
use agentic_sdlc.Base.{
  ◌+◌, String, ◌≡◌, refl, inl, inr, true, false, not, ◌||◌, ◌&&◌, List, [], ◌∷◌, ◌++◌, keep, member,
  is_empty, ◌==◌, eq_iff, subst, arith, length, All, Bool-cases,
}
use agentic_sdlc.Base.Dict
use agentic_sdlc.WorkGraph.Toposort.{Remaining, free_units, settle}
use agentic_sdlc.WorkGraph.Toposort.Members.{
  member-append, member-keep, empty_of_members, member_of_empty,
}

pub length-settle :
    (ready : List String) (rem : Remaining)
    → length (free_units rem) + length (settle ready rem) ≡ length rem
unfolding free_units settle
length-settle ready [] = refl
length-settle ready ((u, deps) ∷ rest) = ground (arith, length-settle ready rest)

pub keys-settle :
    (k : String) (ready : List String) (rem : Remaining)
    → member k (Dict.keys rem)
      ≡ (member k (free_units rem) || member k (Dict.keys (settle ready rem)))
unfolding free_units settle Dict.keys
keys-settle k ready [] = refl
keys-settle k ready ((u, deps) ∷ rest) = ground (arith, keys-settle k ready rest)

-- What is left to wait for is what a unit needs and is not in the order.
module _ (N : String → List String) where
  abbrev pub Waits : List String → String × List String → Type 0
  Waits order (u, deps) = (d : String) → member d deps ≡ (member d (N u) && not (member d order))

  Waits-settled :
      (order ready : List String) (u : String) (deps : List String)
      → Waits order (u, deps)
      → Waits (order ++ ready) (u, keep (λ d. not (member d ready)) deps)
  Waits-settled order ready u deps w d =
      ground
        (arith, member-keep d (λ x. not (member x ready)) deps, member-append d order ready, w d)

  pub settle-Waits :
      (order ready : List String) (rem : Remaining)
      → All (Waits order) rem
      → All (Waits (order ++ ready)) (settle ready rem)
  unfolding settle
  settle-Waits order ready [] w = tt
  settle-Waits order ready ((u, deps) ∷ rest) w = elim (Bool-cases (is_empty deps)) [
    | inl free ↦ rw free (settle-Waits order ready rest w.1)
    | inr waiting ↦
        rw waiting (Waits-settled order ready u deps w.0, settle-Waits order ready rest w.1)
  ]

  -- The unit needs only what is in the list.
  abbrev pub Within : List String → String → Type 0
  Within seen u = (d : String) → member d (N u) ≡ true → member d seen ≡ true

  pub free-Within :
      (order : List String) (rem : Remaining)
      → All (Waits order) rem
      → (u : String) → member u (free_units rem) ≡ true
      → Within order u
  unfolding free_units
  free-Within order [] w u m = cc
  free-Within order ((v, deps) ∷ rest) w u m = elim (Bool-cases (is_empty deps)) [
    | inr waiting ↦ free-Within order rest w.1 u (rw waiting at m)
    | inl free ↦
        let m' = rw free at m in
        elim (Bool-cases (v == u)) [
          | inl same ↦
              subst (Within order) ((eq_iff v u).0 same)
                (λ d needed. ground (arith, w.0 d, member_of_empty d deps))
          | inr other ↦ free-Within order rest w.1 u (rw other at m')
        ]
  ]

  -- If no unit is free, each waits for one that it needs and that is not in the order.
  pub none_free :
      (order : List String) (rem : Remaining)
      → All (Waits order) rem
      → is_empty (free_units rem) ≡ true
      → (u : String) → member u (Dict.keys rem) ≡ true
      → (d : String) × (member d (N u) ≡ true) × (member d order ≡ false)
  unfolding free_units Dict.keys
  none_free order [] w h u m = cc
  none_free order ((v, deps) ∷ rest) w h u m = elim (Bool-cases (is_empty deps)) [
    | inl free ↦ absurd (let h' = rw free at h in cc)
    | inr waiting ↦ elim (Bool-cases (v == u)) [
      | inl same ↦
          let (d, waited) = empty_of_members deps waiting in
          let fits = w.0 d in
          subst (λ x. (e : String) × (member e (N x) ≡ true) × (member e order ≡ false))
            ((eq_iff v u).0 same) (d, ground arith, ground arith)
      | inr other ↦ none_free order rest w.1 (rw waiting at h) u (rw other at m)
    ]
  ]
