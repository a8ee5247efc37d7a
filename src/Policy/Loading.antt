-- ===== src/Policy/Loading.antt =====
-- `load_policy_bytes` of src/agentic_sdlc/policy.py. `parse`, a parameter, decodes and parses TOML;
-- `compiles`, a parameter, is whether `re.compile` takes a pattern.
use agentic_sdlc.Base.{
  ℕ, String, ◌+++◌, Bool, true, false, not, ◌&&◌, ◌||◌, Option, none, some, List, [], ◌∷◌, ◌++◌,
  Result, ok, err, on_ok, value_error, all, is_empty, codes, nat_eq, leb, strip, has_text, given,
  show, same_codes, distinct, if◌then◌else◌, ◌==◌,
}
use agentic_sdlc.Base.Int.{pos}
use agentic_sdlc.Base.Raising.{◌>>=◌, ◌>>◌}
use agentic_sdlc.Base.Value.{Values, Members, string, int, flag, array, table, get, is_one}
use agentic_sdlc.Policy.{ProjectPolicy}
use agentic_sdlc.Policy.Branches.{split_on, ends_with, branch_name_problem}

abbrev pub invalid {ℓ} : {A : Type ℓ} → String → Result A
invalid message = err (value_error message)

abbrev pub baseline_forbidden_paths : List String
baseline_forbidden_paths =
    ".github/**" ∷ ".github/workflows/**" ∷ ".gitlab-ci.yml" ∷ ".gitlab/**" ∷ "agentic-sdlc.toml"
    ∷ "missions.toml" ∷ "**/missions.toml" ∷ "knowledge.toml" ∷ "**/knowledge.toml" ∷ "intake.toml"
    ∷ "**/intake.toml" ∷ "CODEOWNERS" ∷ "**/CODEOWNERS" ∷ "AGENTS.md" ∷ "**/AGENTS.md" ∷ "CLAUDE.md"
    ∷ "**/CLAUDE.md" ∷ ".env*" ∷ "**/.env*" ∷ "*.pem" ∷ "**/*.pem" ∷ "*.key" ∷ "**/*.key" ∷ []

-- `_table`
unfoldable pub table_of : Members → String → Result Members
table_of document name = elim (get name document) [
  | none ↦ ok Members.end
  | some value ↦ elim value [
    | table members ↦ ok members
    | _ ↦ invalid (name +++ " must be a TOML table")
  ]
]

-- `_string`
unfoldable pub string_of : Members → String → String → Result String
string_of members name default = elim (get name members) [
  | none ↦ ok (strip default)
  | some value ↦ elim value [
    | string t ↦
        if has_text t then ok (strip t) else invalid (name +++ " must be a non-empty string")
    | _ ↦ invalid (name +++ " must be a non-empty string")
  ]
]

abbrev pub in_range : String → ℕ → ℕ → Result ℕ
in_range name maximum n =
    if leb 1 n && leb n maximum
    then ok n
    else invalid (name +++ " must be an integer between 1 and " +++ show maximum)

-- `_integer`
unfoldable pub integer_of : Members → String → ℕ → ℕ → Result ℕ
integer_of members name default maximum = elim (get name members) [
  | none ↦ in_range name maximum default
  | some value ↦ elim value [ int (pos n) ↦ in_range name maximum n | _ ↦ in_range name maximum 0 ]
]

-- the texts of an array, if each element is one that is not empty
unfoldable pub texts : Values → Option (List String)
texts Values.nil = some []
texts (Values.cons v vs) = elim v [
  | string t ↦
      if given t then elim (texts vs) [ none ↦ none | some more ↦ some (t ∷ more) ] else none
  | _ ↦ none
]

-- `_patterns`
unfoldable pub patterns_of : Members → String → List String → Result (List String)
patterns_of members name default = elim (get name members) [
  | none ↦ ok default
  | some value ↦ elim value [
    | array vs ↦ elim (texts vs) [
      | none ↦ invalid (name +++ " must be an array of non-empty strings")
      | some ts ↦ ok ts
    ]
    | _ ↦ invalid (name +++ " must be an array of non-empty strings")
  ]
]

abbrev is_alnum : ℕ → Bool
is_alnum c =
    (leb b'a' c && leb c b'z') || ((leb b'A' c && leb c b'Z') || (leb b'0' c && leb c b'9'))

-- a part of a project id
abbrev is_id_part : List ℕ → Bool
is_id_part part =
    not (is_empty part)
    && all (λ c. is_alnum c || (nat_eq c b'_' || (nat_eq c b'.' || nat_eq c b'-'))) part

-- _PROJECT_ID.fullmatch
unfoldable pub is_project_id : String → Bool
is_project_id id = elim (split_on b'/' (codes id)) [
  | [] ↦ false
  | first ∷ [] ↦ false
  | first ∷ second ∷ rest ↦ all is_id_part (first ∷ second ∷ rest)
]

-- what is in front of the part that the text ends with
unfoldable pub before : List ℕ → List ℕ → List ℕ
before part [] = []
before part (c ∷ cs) =
    let rest = before part cs in if same_codes part (c ∷ cs) then [] else c ∷ rest

abbrev is_bot_code : ℕ → Bool
is_bot_code c = (leb b'a' c && leb c b'z') || (leb b'0' c && leb c b'9')

-- _BOT_LOGIN.fullmatch
unfoldable pub is_bot_login : String → Bool
is_bot_login login =
    ends_with (codes "[bot]") (codes login) && elim (before (codes "[bot]") (codes login)) [
      | [] ↦ false
      | c ∷ cs ↦ is_bot_code c && all (λ d. is_bot_code d || nat_eq d b'-') cs
    ]

abbrev pub check : Bool → String → Result (Unit {0})
check true message = ok tt
check false message = invalid message

-- automation.get("publisher_bot_login", "")
unfoldable pub bot_login_of : Members → Result String
bot_login_of automation = elim (get "publisher_bot_login" automation) [
  | none ↦ ok ""
  | some value ↦ elim value [
    | string t ↦
        if not (given t) || is_bot_login t
        then ok t
        else invalid "automation.publisher_bot_login must be empty or `<app-slug>[bot]`"
    | _ ↦ invalid "automation.publisher_bot_login must be empty or `<app-slug>[bot]`"
  ]
]

-- policy.get("human_merge_required", True)
unfoldable pub human_merge_of : Members → Result Bool
human_merge_of policy = elim (get "human_merge_required" policy) [
  | none ↦ ok true
  | some value ↦ elim value [
    | flag b ↦ ok b
    | _ ↦ invalid "policy.human_merge_required must be a boolean"
  ]
]

-- len({a, b, c}) == 3
abbrev pub are_distinct : String → String → String → Bool
are_distinct a b c = not (a == b) && (not (a == c) && not (b == c))

module _ (compiles : String → Bool) (is_control : ℕ → Bool) where
  -- the loop over the forbidden task patterns
  unfoldable pub check_patterns : List String → Result (Unit {0})
  check_patterns [] = ok tt
  check_patterns (p ∷ ps) = do
    check (compiles p) ("invalid forbidden task pattern: " +++ p)
    check_patterns ps

  unfoldable pub check_project : String → String → String → Result (Unit {0})
  check_project provider project_id default_branch =
      let problem = branch_name_problem is_control default_branch in
      do
        check (provider == "github" || provider == "gitlab")
            "project.provider must be github or gitlab"
        check (is_project_id project_id) "project.id must use namespace/name format"
        check (not (given problem)) ("project.default_branch " +++ problem)

  -- the three tables of the document, read in the order of the code
  unfoldable pub load_tables : Members → Members → Members → Result ProjectPolicy
  load_tables project automation policy = do
    provider ← string_of project "provider" "github"
    project_id ← string_of project "id" "unknown/unknown"
    default_branch ← string_of project "default_branch" "main"
    check_project provider project_id default_branch
    ready ← string_of automation "ready_label" "agent-ready"
    human ← string_of automation "human_review_label" "human-review-required"
    implementation ← string_of automation "implementation_label" "implementation-approved"
    check (are_distinct ready human implementation) "automation approval labels must be distinct"
    login ← bot_login_of automation
    human_merge ← human_merge_of policy
    forbidden ← patterns_of policy "forbidden_paths" []
    task_patterns ← patterns_of policy "forbidden_task_patterns" []
    check_patterns task_patterns
    files ← integer_of policy "max_changed_files" 30 10000
    lines ← integer_of policy "max_diff_lines" 3000 10000000
    bytes ← integer_of policy "max_patch_bytes" 5000000 100000000
    protected ← patterns_of policy "protected_paths" []
    low_risk ← patterns_of policy "low_risk_paths" ("docs/**" ∷ "**/*.md" ∷ [])
    ttl ← integer_of automation "lease_ttl_minutes" 240 10080
    ok record {
      provider = provider;
      project_id = project_id;
      default_branch = default_branch;
      ready_label = ready;
      human_review_label = human;
      implementation_label = implementation;
      human_merge_required = human_merge;
      max_changed_files = files;
      max_diff_lines = lines;
      max_patch_bytes = bytes;
      forbidden_paths = distinct (baseline_forbidden_paths ++ forbidden);
      protected_paths = protected;
      low_risk_paths = low_risk;
      forbidden_task_patterns = task_patterns;
      lease_ttl_minutes = ttl;
      publisher_bot_login = login;
    }

  unfoldable pub load_document : Members → Result ProjectPolicy
  load_document document = do
    check (is_one (get "version" document)) "policy version must be 1"
    project ← table_of document "project"
    automation ← table_of document "automation"
    policy ← table_of document "policy"
    load_tables project automation policy

  unfoldable pub load_policy_bytes {ℓ} :
      {Bytes : Type ℓ} → (Bytes → Result Members) → Bytes → Result ProjectPolicy
  load_policy_bytes parse raw = on_ok (parse raw) load_document
