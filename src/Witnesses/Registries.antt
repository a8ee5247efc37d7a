-- ===== src/Witnesses/Registries.antt =====
-- A registry with a mission of the consumer (src/agentic_sdlc/missions.py).
use agentic_sdlc.Base.Int.{pos}
use agentic_sdlc.Base.{
  ℕ, String, ◌≡◌, refl, Bool, true, ◌&&◌, List, [], ◌∷◌, ok, err, on_ok, leb, strip, lstrip, rstrip,
  is_space, distinct, mission_error,
}
use agentic_sdlc.Base.Dict
use agentic_sdlc.Base.Value.{
  Value, Members, Values, string, int, array, table, members_of, elements, get,
}
use agentic_sdlc.Glob.{fnmatch_codes, items, matches_items, accepts}
use agentic_sdlc.MergeEvidence.{to_set}
use agentic_sdlc.Missions.{MissionSpec, writes, reviews}
use agentic_sdlc.Missions.Ledger.{MissionRegistry}
use agentic_sdlc.Missions.Parsing.{
  stripped_texts, mission_texts, mission_text, mission_flag, mission_limit, mission_risk,
  parse_table, parse_mission,
}
use agentic_sdlc.Missions.Platform.{platform_missions, spec_with}
use agentic_sdlc.Missions.Registry.{
  is_mission_id, beyond, insist, check_scopes, all_forbidden, is_version, validate_mission,
  validate_all, allowed_of, add_platform, ids_of, add_entries, check_references,
  registry_from_document,
}
use agentic_sdlc.Missions.Safe.{IsSafe, registry_from_document-IsSafe}
use agentic_sdlc.Policy.{ProjectPolicy}
use agentic_sdlc.Policy.Decisions.{low}
use agentic_sdlc.Policy.Branches.{split_on}
use agentic_sdlc.Policy.Paths.{matches, normalized}

abbrev policy : ProjectPolicy
policy = record {
  provider = "github";
  project_id = "a/b";
  default_branch = "main";
  ready_label = "r";
  human_review_label = "h";
  implementation_label = "i";
  human_merge_required = true;
  max_changed_files = 30;
  max_diff_lines = 3000;
  max_patch_bytes = 5000000;
  forbidden_paths = ".github/**" ∷ [];
  protected_paths = [];
  low_risk_paths = [];
  forbidden_task_patterns = [];
  lease_ttl_minutes = 240;
  publisher_bot_login = "";
}

abbrev is_decimal : ℕ → Bool
is_decimal c = leb b'0' c && leb c b'9'

abbrev words : List String → Value
words [] = array Values.nil
words (t ∷ ts) = array (Values.cons (string t) (rest ts))
  where
    rest : List String → Values
    rest [] = Values.nil
    rest (s ∷ ss) = Values.cons (string s) (rest ss)

abbrev entry_of : String → Value
entry_of id = table (
    members_of (
      ("id", string id)
      ∷ ("version", string "1.2.0")
      ∷ ("purpose", string "Fix the docs")
      ∷ ("success_criteria", words ("done" ∷ []))
      ∷ ("capabilities", words ("edit-docs" ∷ []))
      ∷ ("output_artifacts", words ("patch" ∷ []))
      ∷ ("write_paths", words ("docs/**" ∷ []))
      ∷ []))

abbrev document_of : String → Members
document_of id = members_of (
    ("version", int (pos 1))
    ∷ (
      "registry",
      table (members_of (("allowed_capabilities", words ("edit-docs" ∷ "plan" ∷ [])) ∷ [])),
    )
    ∷ ("mission", array (elements (entry_of id ∷ [])))
    ∷ [])

abbrev doc_fixer : MissionSpec
unfolding spec_with
doc_fixer = record (spec_with "doc-fixer" "Fix the docs" ("edit-docs" ∷ []) ("patch" ∷ [])) {
  version = "1.2.0";
  success_criteria = "done" ∷ [];
  write_paths = "docs/**" ∷ [];
  origin = "consumer";
}

abbrev documentation_agent : MissionSpec
unfolding spec_with
documentation_agent =
    record (spec_with "documentation-agent" "Produce or update documentation for a completed change"
      ("edit-docs" ∷ []) ("patch" ∷ "patch-manifest" ∷ [])) {
        input_artifacts = "task-spec" ∷ [];
        write_paths = "docs/**" ∷ "*.md" ∷ "**/*.md" ∷ [];
        risk = low;
        parallelizable = true;
      }

abbrev registry : MissionRegistry
registry = record {
  missions = ("documentation-agent", documentation_agent) ∷ ("doc-fixer", doc_fixer) ∷ [];
  allowed_capabilities = "edit-docs" ∷ "plan" ∷ [];
}

read : registry_from_document is_decimal (document_of "doc-fixer") policy true ≡ ok registry
unfolding registry_from_document is_mission_id beyond insist check_scopes all_forbidden is_version
    validate_mission validate_all allowed_of add_platform ids_of add_entries check_references
    stripped_texts mission_texts mission_text mission_flag mission_limit mission_risk parse_table
    parse_mission platform_missions spec_with writes reviews split_on matches normalized
    fnmatch_codes items matches_items accepts to_set distinct on_ok strip lstrip rstrip is_space get
    Dict.get Dict.put Dict.keys Dict.values doc_fixer documentation_agent
read = refl

registry_from_document-IsSafe_example : IsSafe policy registry
registry_from_document-IsSafe_example =
    registry_from_document-IsSafe is_decimal (document_of "doc-fixer") policy true registry read

-- A mission of the consumer under an id of the platform is refused.
replaced :
    registry_from_document is_decimal (document_of "documentation-agent") policy true
    ≡ err (
        mission_error
          "mission documentation-agent: consumer missions cannot replace platform missions")
unfolding registry_from_document beyond insist allowed_of add_platform ids_of add_entries
    stripped_texts mission_texts mission_text mission_flag mission_limit mission_risk parse_table
    parse_mission platform_missions spec_with to_set on_ok strip lstrip rstrip is_space get Dict.get
    Dict.put Dict.keys
replaced = refl
