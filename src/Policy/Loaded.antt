-- ===== src/Policy/Loaded.antt =====
-- What a policy that `load_policy_bytes` (src/agentic_sdlc/policy.py) returns can be relied on for.
use agentic_sdlc.Base.{
  ℕ, ◌≤◌, String, ◌≡◌, ◌≢◌, refl, subst, sym, ap, ◌∙◌, Bool, true, false, not, ◌&&◌, ◌||◌, List, [],
  ◌∷◌, ◌++◌, Result, ok, on_ok, after, any, All, leb, member, codes, distinct, arith, eq_iff,
  eq_refl, Bool-cases, inl, inr, Option-cases, ◌==◌,
}
use agentic_sdlc.Base.Int.{pos, negsuc}
use agentic_sdlc.Base.Value.{Members, Value, string, int, flag, array, table, other, null, get}
use agentic_sdlc.Glob.{fnmatch_codes}
use agentic_sdlc.Policy.{ProjectPolicy}
use agentic_sdlc.Policy.Branches.{branch_name_problem}
use agentic_sdlc.Policy.Decisions.{PolicyDecision, evaluate_diff}
use agentic_sdlc.Policy.Limits.{evaluate_diff-verdict}
use agentic_sdlc.Policy.Paths.{matches_folded, normalized}
use agentic_sdlc.WorkGraph.Toposort.Members.{member-append, member-keep, member_of_All}
use agentic_sdlc.Policy.Loading.{
  baseline_forbidden_paths, integer_of, check, check_patterns, check_project, is_project_id,
  load_tables, load_document, load_policy_bytes, are_distinct, in_range,
}

check_then {ℓ} :
    {B : Type ℓ} (t : Bool) (message : String) (f : Unit {0} → Result B) (b : B)
    → on_ok (check t message) f ≡ ok b
    → (t ≡ true) × (f tt ≡ ok b)
unfolding on_ok
check_then true message f b h = (refl, h)
check_then false message f b h = cc

check-true : (t : Bool) (message : String) → check t message ≡ ok tt → t ≡ true
check-true true message h = refl
check-true false message h = cc

in_range-le :
    (name : String) (maximum k n : ℕ) → in_range name maximum k ≡ ok n → (1 ≤ n) × (n ≤ maximum)
in_range-le name maximum k n h = elim (Bool-cases (leb 1 k && leb k maximum)) [
  | inl fits ↦ let h' = rw fits at h in let same : k ≡ n = cc in (ground arith, ground arith)
  | inr not_fits ↦ absurd (let h' = rw not_fits at h in cc)
]

integer_of-le :
    (members : Members) (name : String) (default maximum n : ℕ)
    → integer_of members name default maximum ≡ ok n
    → (1 ≤ n) × (n ≤ maximum)
unfolding integer_of
integer_of-le members name default maximum n h = elim (Option-cases (get name members)) [
  | inl missing ↦ in_range-le name maximum default n (rw (integer_of, missing) at h)
  | inr (value, at) ↦ of_value value (rw (integer_of, at) at h)
]
  where
    of_value :
        (v : Value)
        → elim v [ int (pos k) ↦ in_range name maximum k | _ ↦ in_range name maximum 0 ] ≡ ok n
        → (1 ≤ n) × (n ≤ maximum)
    of_value (int (pos k)) h = in_range-le name maximum k n h
    of_value (int (negsuc k)) h = in_range-le name maximum 0 n h
    of_value null h = in_range-le name maximum 0 n h
    of_value (string t) h = in_range-le name maximum 0 n h
    of_value (flag b) h = in_range-le name maximum 0 n h
    of_value (array vs) h = in_range-le name maximum 0 n h
    of_value (table ms) h = in_range-le name maximum 0 n h
    of_value (other one truth) h = in_range-le name maximum 0 n h

-- a path that matches one of the patterns matches one of any that have them all
pub matches_more :
    (casefold : List ℕ → List ℕ) (path : String) (ps qs : List String)
    → ((q : String) → member q ps ≡ true → member q qs ≡ true)
    → matches_folded casefold path ps ≡ true
    → matches_folded casefold path qs ≡ true
unfolding matches_folded
matches_more casefold path [] qs h hit = cc
matches_more casefold path (p ∷ ps) qs h hit =
    elim (Bool-cases (fnmatch_codes (casefold (normalized path)) (casefold (codes p)))) [
      | inl here ↦ one p qs (h p (ground (arith, eq_refl p))) here
      | inr away ↦ matches_more casefold path ps qs (λ q m. h q (ground arith)) (ground arith)
    ]
  where
    one :
        (q : String) (rs : List String)
        → member q rs ≡ true
        → fnmatch_codes (casefold (normalized path)) (casefold (codes q)) ≡ true
        → any (λ r. fnmatch_codes (casefold (normalized path)) (casefold (codes r))) rs ≡ true
    one q [] m e = cc
    one q (r ∷ rs) m e = elim (Bool-cases (r == q)) [
      | inl same ↦
          let e' =
            subst (λ x. fnmatch_codes (casefold (normalized path)) (casefold (codes x)) ≡ true)
              (sym ((eq_iff r q).0 same)) e in
          ground arith
      | inr differs ↦ let later = one q rs (ground arith) e in ground arith
    ]

pub member-distinct : (k : String) (xs : List String) → member k (distinct xs) ≡ member k xs
unfolding distinct
member-distinct k [] = refl
member-distinct k (x ∷ xs) =
    ground
      (arith, member-distinct k xs, member-keep k (λ y. not (x == y)) (distinct xs), eq_iff x k)

three : (a b c : String) → are_distinct a b c ≡ true → (a ≢ b) × (a ≢ c) × (b ≢ c)
three a b c h = (
  (λ e. let same = (eq_iff a b).1 e in ground arith),
  (λ e. let same = (eq_iff a c).1 e in ground arith),
  (λ e. let same = (eq_iff b c).1 e in ground arith),
)

module _ (compiles : String → Bool) (is_control : ℕ → Bool) where
  check_patterns-All :
      (ps : List String)
      → check_patterns compiles is_control ps ≡ ok tt
      → All (λ p. compiles p ≡ true) ps
  unfolding check_patterns
  check_patterns-All [] h = tt
  check_patterns-All (p ∷ ps) h =
      let (fine, rest) = check_then _ _ _ tt h in (fine, check_patterns-All ps rest)

  -- A policy that the rest of the program can rely on.
  pub record IsLoaded (p : ProjectPolicy) : Type 0 where
    pub provider : (p.provider == "github" || p.provider == "gitlab") ≡ true
    pub project : is_project_id p.project_id ≡ true
    pub branch : branch_name_problem is_control p.default_branch ≡ ""
    pub labels :
        (p.ready_label ≢ p.human_review_label)
        × (p.ready_label ≢ p.implementation_label)
        × (p.human_review_label ≢ p.implementation_label)
    pub files : (1 ≤ p.max_changed_files) × (p.max_changed_files ≤ 10000)
    pub lines : (1 ≤ p.max_diff_lines) × (p.max_diff_lines ≤ 10000000)
    pub bytes : (1 ≤ p.max_patch_bytes) × (p.max_patch_bytes ≤ 100000000)
    pub ttl : (1 ≤ p.lease_ttl_minutes) × (p.lease_ttl_minutes ≤ 10080)
    pub baseline :
        (path : String)
        → member path baseline_forbidden_paths ≡ true
        → member path p.forbidden_paths ≡ true
    pub patterns : All (λ q. compiles q ≡ true) p.forbidden_task_patterns

  checked_project :
      (provider project_id branch : String)
      → check_project compiles is_control provider project_id branch ≡ ok tt
      → ((provider == "github" || provider == "gitlab") ≡ true)
        × (is_project_id project_id ≡ true)
        × (branch_name_problem is_control branch ≡ "")
  unfolding check_project
  checked_project provider project_id branch h =
      let (github, h1) = check_then _ _ _ tt h in
      let (named, h2) = check_then _ _ _ tt h1 in
      let clear = check-true _ _ h2 in
      (github, named, (eq_iff (branch_name_problem is_control branch) "").0 (ground arith))

  load_tables-IsLoaded :
      (project automation policy : Members) (p : ProjectPolicy)
      → load_tables compiles is_control project automation policy ≡ ok p
      → IsLoaded p
  unfolding load_tables
  load_tables-IsLoaded project automation policy p h = after h λ provider _ h.
      after h λ project_id _ h. after h λ default_branch _ h. after h λ _ checked h.
        after h λ ready _ h. after h λ human _ h. after h λ implementation _ h.
          after h λ _ differ h. after h λ login _ h. after h λ merge _ h. after h λ forbidden _ h.
            after h λ task_patterns _ h. after h λ _ compiled h. after h λ files f h.
              after h λ lines l h. after h λ bytes b h. after h λ protected _ h.
                after h λ low_risk _ h. after h λ ttl t done.
                  let (github, named, clear) =
                    checked_project provider project_id default_branch checked in
                  subst_policy done record {
                    provider = github;
                    project = named;
                    branch = clear;
                    labels = three ready human implementation (check-true _ _ differ);
                    files = integer_of-le policy "max_changed_files" 30 10000 files f;
                    lines = integer_of-le policy "max_diff_lines" 3000 10000000 lines l;
                    bytes = integer_of-le policy "max_patch_bytes" 5000000 100000000 bytes b;
                    ttl = integer_of-le automation "lease_ttl_minutes" 240 10080 ttl t;
                    baseline = λ path m.
                        member-distinct path (baseline_forbidden_paths ++ forbidden)
                        ∙ member-append path baseline_forbidden_paths forbidden
                        ∙ ap (λ t. t || member path forbidden) m;
                    patterns = check_patterns-All task_patterns compiled;
                  }
    where
      subst_policy : {q : ProjectPolicy} → ok q ≡ ok p → IsLoaded q → IsLoaded p
      subst_policy {q} done l = let same : q ≡ p = cc in subst IsLoaded same l

  -- A policy that is loaded names a provider that is known, a project and a branch of the right form and
  -- three different labels; its caps are between 1 and the greatest that is allowed; its forbidden paths
  -- have the whole baseline; and its forbidden task patterns compile.
  pub load_policy_bytes-IsLoaded {ℓ} :
      {Bytes : Type ℓ} (parse : Bytes → Result Members) (raw : Bytes) (p : ProjectPolicy)
      → load_policy_bytes compiles is_control parse raw ≡ ok p
      → IsLoaded p
  unfolding load_policy_bytes load_document
  load_policy_bytes-IsLoaded parse raw p h = after h λ document _ h. after h λ _ _ h.
      after h λ project _ h.
        after h
          λ automation _ h. after h λ policy _ h. load_tables-IsLoaded project automation policy p h

  -- With a policy that was loaded, no diff is allowed that has a path which, with case folded, matches
  -- one of the baseline, whatever the rest of the document is.
  pub baseline_refused {ℓ} :
      {Bytes : Type ℓ} (parse : Bytes → Result Members) (raw : Bytes) (p : ProjectPolicy)
      (casefold : List ℕ → List ℕ) (paths : List String) (added deleted patch : ℕ)
      (d : PolicyDecision) (path : String)
      → load_policy_bytes compiles is_control parse raw ≡ ok p
      → member path paths ≡ true
      → matches_folded casefold path baseline_forbidden_paths ≡ true
      → evaluate_diff casefold paths (pos added) (pos deleted) p (pos patch) ≡ ok d
      → d.allowed ≡ false
  baseline_refused parse raw p casefold paths added deleted patch d path loaded m hit judged =
      let l = load_policy_bytes-IsLoaded parse raw p loaded in
      let (verdict, _, _) = evaluate_diff-verdict casefold paths p added deleted patch d judged in
      elim (Bool-cases d.allowed) [
        | inr refused ↦ refused
        | inl allowed ↦
            let clear = member_of_All _ paths (verdict.0 allowed).forbidden path m in
            absurd (
              let more =
                matches_more casefold path baseline_forbidden_paths p.forbidden_paths l.baseline
                  hit in
              cc)
      ]
