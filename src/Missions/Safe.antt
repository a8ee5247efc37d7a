-- ===== src/Missions/Safe.antt =====
-- What a registry that `registry_from_document` (src/agentic_sdlc/missions.py) returns can be relied on for.
use agentic_sdlc.Base.{
  ℕ, String, ◌≡◌, ◌≢◌, refl, sym, subst, ap, ◌∙◌, ◌⊎◌, inl, inr, Bool, true, false, not, ◌&&◌, ◌||◌,
  some, List, [], ◌∷◌, ◌++◌, Result, ok, on_ok, after, All, member, is_empty, arith, eq_iff, ◌==◌,
  is_empty-sorted, Bool-cases,
}
use agentic_sdlc.Base.Dict
use agentic_sdlc.Base.Dict.{Dict}
use agentic_sdlc.Base.Value.{Values, Members}
use agentic_sdlc.Missions.{MissionSpec, writes, reviews}
use agentic_sdlc.Missions.Ledger.{MissionRegistry}
use agentic_sdlc.Missions.Budget.{Keyed}
use agentic_sdlc.Missions.Platform.{platform_missions}
use agentic_sdlc.Missions.Registry.{
  insist, beyond, is_critical, check_scopes, all_forbidden, validate_mission, validate_all,
  add_platform, ids_of, add_entries, registry_from_document,
}
use agentic_sdlc.Policy.{ProjectPolicy}
use agentic_sdlc.Policy.Decisions.{critical}
use agentic_sdlc.Policy.Loaded.{matches_more, member-distinct}
use agentic_sdlc.Policy.Paths.{matches, matches_folded}
use agentic_sdlc.WorkGraph.Toposort.Members.{member-append, none_missing}

insist-ok {ℓ} :
    {B : Type ℓ} (t : Bool) (message : String) (f : Unit {0} → Result B) (b : B)
    → on_ok (insist t message) f ≡ ok b
    → (t ≡ true) × (f tt ≡ ok b)
unfolding on_ok insist
insist-ok true message f b h = (refl, h)
insist-ok false message f b h = cc

insist_then {ℓ} :
    {B : Type ℓ} {P : Type 0} {b : B} (t : Bool) (message : String) (f : Unit {0} → Result B)
    → on_ok (insist t message) f ≡ ok b
    → (t ≡ true → f tt ≡ ok b → P)
    → P
insist_then {b = b} t message f h k = let (holds, rest) = insist-ok t message f b h in k holds rest

-- A mission that may be dispatched: it does not both review and write, has only capabilities that are
-- allowed, has a write scope exactly if it may write, no scope that is a forbidden path of the policy as
-- the code tests it, and no critical risk.
pub record IsValid (policy : ProjectPolicy) (allowed : List String) (m : MissionSpec) : Type 0 where
  pub apart : (reviews m && writes m) ≡ false
  pub capable : All (λ c. member c allowed ≡ true) m.capabilities
  pub scoped : writes m ≡ not (is_empty m.write_paths)
  pub scopes : All (λ p. matches p policy.forbidden_paths ≡ false) m.write_paths
  pub risk : m.risk ≢ critical

unmatched :
    (policy : ProjectPolicy) (m : MissionSpec) (p : String)
    → matches p (all_forbidden policy m) ≡ false
    → matches p policy.forbidden_paths ≡ false
unfolding matches matches_folded all_forbidden
unmatched policy m p h = elim (Bool-cases (matches p policy.forbidden_paths)) [
  | inr clear ↦ clear
  | inl hit ↦
      let more =
        matches_more (λ x. x) p policy.forbidden_paths (all_forbidden policy m)
          (λ q q_in.
            member-distinct q (policy.forbidden_paths ++ m.forbidden_paths)
            ∙ member-append q policy.forbidden_paths m.forbidden_paths
            ∙ ap (λ t. t || member q m.forbidden_paths) q_in)
          hit in
      absurd (let both : true ≡ false = sym more ∙ h in cc)
]

check_scopes-All :
    (policy : ProjectPolicy) (m : MissionSpec) (prefix : String) (ps : List String)
    → check_scopes prefix (all_forbidden policy m) ps ≡ ok tt
    → All (λ p. matches p policy.forbidden_paths ≡ false) ps
unfolding check_scopes
check_scopes-All policy m prefix [] h = tt
check_scopes-All policy m prefix (p ∷ ps) h = insist_then _ _ _ h λ _ h.
    insist_then _ _ _ h
      λ clear h. (unmatched policy m p (ground arith), check_scopes-All policy m prefix ps h)

module _ (is_decimal : ℕ → Bool) (policy : ProjectPolicy) (allowed : List String) where
  validate_mission-IsValid :
      (m : MissionSpec)
      → validate_mission is_decimal policy allowed m ≡ ok tt
      → IsValid policy allowed m
  unfolding validate_mission beyond
  validate_mission-IsValid m h = insist_then _ _ _ h λ _ h. insist_then _ _ _ h λ _ h.
      insist_then _ _ _ h λ _ h. insist_then _ _ _ h λ _ h. insist_then _ _ _ h λ _ h.
        insist_then _ _ _ h λ _ h. insist_then _ _ _ h λ available h. insist_then _ _ _ h λ calm h.
          insist_then _ _ _ h λ has_scope h. insist_then _ _ _ h λ may_write h.
            after h λ _ scopes h. insist_then _ _ _ h λ apart h. record {
              apart = ground arith;
              capable = (none_missing m.capabilities allowed).0 (is_empty-sorted _ available);
              scoped = ground arith;
              scopes = check_scopes-All policy m _ m.write_paths scopes;
              risk = λ worst. let not_calm = ap is_critical worst in ground arith;
            }

  validate_all-All :
      (ms : List MissionSpec)
      → validate_all is_decimal policy allowed ms ≡ ok tt
      → All (IsValid policy allowed) ms
  unfolding validate_all
  validate_all-All [] h = tt
  validate_all-All (m ∷ ms) h =
      after h λ _ fine h. (validate_mission-IsValid m fine, validate_all-All ms h)

-- The mission is one of the list.
abbrev pub Among : MissionSpec → List MissionSpec → Type 0
Among m [] = ⊥
Among m (x ∷ xs) = (m ≡ x) ⊎ Among m xs

-- A mission stands under its id, and under an id of the platform stands a mission of the platform.
abbrev Placed : String → MissionSpec → Type 0
Placed id m =
    (m.mission_id ≡ id) × (member id (ids_of platform_missions) ≡ true → Among m platform_missions)

abbrev AllPlaced : Dict MissionSpec → Type 0
AllPlaced d = (id : String) (m : MissionSpec) → Dict.get id d ≡ some m → Placed id m

put-AllPlaced :
    (m : MissionSpec) (d : Dict MissionSpec)
    → Placed m.mission_id m
    → AllPlaced d
    → AllPlaced (Dict.put m.mission_id m d)
put-AllPlaced m d p all id k at =
    let here = sym (Dict.get-put m.mission_id id m d) ∙ at in
    elim (Bool-cases (m.mission_id == id)) [
      | inl same ↦
          let found = rw same at here in
          let one : m ≡ k = cc in
          subst (Placed id) one (subst (λ j. Placed j m) ((eq_iff m.mission_id id).0 same) p)
      | inr differs ↦ all id k (rw differs at here)
    ]

add_platform-AllPlaced :
    (allowed : List String) (ms : List MissionSpec) (d : Dict MissionSpec)
    → All (λ m. Among m platform_missions) ms
    → AllPlaced d
    → AllPlaced (add_platform allowed ms d)
unfolding add_platform
add_platform-AllPlaced allowed [] d among all = all
add_platform-AllPlaced allowed (m ∷ ms) d among all =
    elim (Bool-cases (is_empty (beyond m.capabilities allowed))) [
      | inl fits ↦ rw fits (
          add_platform-AllPlaced allowed ms (Dict.put m.mission_id m d) among.1
            (put-AllPlaced m d (refl, λ _. among.0) all))
      | inr lacks ↦ rw lacks (add_platform-AllPlaced allowed ms d among.1 all)
    ]

add_entries-AllPlaced :
    (vs : Values) (d out : Dict MissionSpec)
    → AllPlaced d
    → add_entries vs d ≡ ok out
    → AllPlaced out
unfolding add_entries
add_entries-AllPlaced Values.nil d out all h = let same : d ≡ out = cc in subst AllPlaced same all
add_entries-AllPlaced (Values.cons v vs) d out all h = after h λ m _ h.
    insist_then _ _ _ h λ foreign h. insist_then _ _ _ h λ new h.
      add_entries-AllPlaced vs (Dict.put m.mission_id m d) out
        (put-AllPlaced m d (refl, λ ours. absurd (ground arith)) all) h

platform-Among : (ms : List MissionSpec) → All (λ m. Among m ms) ms
platform-Among ms = from ms ms (λ m a. a)
  where
    from :
        (xs ys : List MissionSpec)
        → ((m : MissionSpec) → Among m xs → Among m ys)
        → All (λ m. Among m ys) xs
    from [] ys f = tt
    from (x ∷ xs) ys f = (f x (inl refl), from xs ys (λ m a. f m (inr a)))

-- Each mission of the registry stands under its id and is valid, and one under an id of the platform is the
-- platform's.
pub record IsSafe (policy : ProjectPolicy) (r : MissionRegistry) : Type 0 where
  pub keyed : Keyed r
  pub platform :
      (id : String) (m : MissionSpec)
      → Dict.get id r.missions ≡ some m
      → member id (ids_of platform_missions) ≡ true
      → Among m platform_missions
  pub valid :
      (id : String) (m : MissionSpec)
      → Dict.get id r.missions ≡ some m
      → IsValid policy r.allowed_capabilities m

-- Whatever the document is, in a registry that is returned each mission stands under its id; a mission under
-- an id of the platform is the platform's own; and each mission has only capabilities that the registry
-- allows, does not both review and write, has write scopes exactly if it may write, none of which is a
-- forbidden path of the policy as the code tests it, and has no critical risk.
pub registry_from_document-IsSafe :
    (is_decimal : ℕ → Bool) (document : Members) (policy : ProjectPolicy) (is_declared : Bool)
    (r : MissionRegistry)
    → registry_from_document is_decimal document policy is_declared ≡ ok r
    → IsSafe policy r
unfolding registry_from_document Dict.get
registry_from_document-IsSafe is_decimal document policy is_declared r h =
    insist_then _ _ _ h λ _ h. after h λ table _ h. after h λ allowed _ h. after h λ entries _ h.
      after h λ missions added h. after h λ _ validated h. after h λ _ _ done.
        let placed =
          add_entries-AllPlaced entries (add_platform allowed platform_missions []) missions
            (add_platform-AllPlaced allowed platform_missions [] (platform-Among platform_missions)
              nothing)
            added in
        let valid = validate_all-All is_decimal policy allowed (Dict.values missions) validated in
        finish _ done record {
          keyed = λ id m at. (placed id m at).0;
          platform = λ id m at. (placed id m at).1;
          valid = λ id m at. Dict.All-get (IsValid policy allowed) missions id m valid at;
        }
  where
    finish : (q : MissionRegistry) → ok q ≡ ok r → IsSafe policy q → IsSafe policy r
    finish q done s = let same : q ≡ r = cc in subst (IsSafe policy) same s

    nothing : AllPlaced []
    nothing id m at = absurd cc
