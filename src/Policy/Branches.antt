-- ===== src/Policy/Branches.antt =====
-- Names of branches (`git_branch_format_problem` and `branch_name_problem` of src/agentic_sdlc/policy.py).
use agentic_sdlc.Base.{
  ℕ, String, ◌+++◌, ◌≡◌, refl, Bool, not, ◌||◌, List, [], ◌∷◌, ◌++◌, any, is_empty, codes, nat_eq,
  ltb, same_codes, begins_with, occurs, join, given, if◌then◌else◌, ◌==◌,
}
use agentic_sdlc.Policy.Decisions.{when}

-- text.endswith(part)
unfoldable pub ends_with : List ℕ → List ℕ → Bool
ends_with part [] = is_empty part
ends_with part (c ∷ cs) = same_codes part (c ∷ cs) || ends_with part cs

abbrev extend : ℕ → List (List ℕ) → List (List ℕ)
extend c [] = (c ∷ []) ∷ []
extend c (part ∷ parts) = (c ∷ part) ∷ parts

-- text.split(separator), for a single character
unfoldable pub split_on : ℕ → List ℕ → List (List ℕ)
split_on sep [] = [] ∷ []
split_on sep (c ∷ cs) =
    let rest = split_on sep cs in if nat_eq c sep then [] ∷ rest else extend c rest

-- a code point that no branch name of git has: a control character, or one of " ~^:?*[\"
unfoldable pub is_unfit : ℕ → Bool
is_unfit c = ltb c 32 || (nat_eq c 127 || any (nat_eq c) (codes " ~^:?*[\\"))

-- a part between slashes that git refuses
unfoldable pub is_bad_part : List ℕ → Bool
is_bad_part part = begins_with (codes ".") part || ends_with (codes ".lock") part

unfoldable pub git_branch_format_problem : String → String
git_branch_format_problem name =
    let text = codes name in
    if not (given name)
    then "must not be empty"
    else if name == "HEAD"
    then "must not be 'HEAD'"
    else if begins_with (codes "-") text
    then "must not start with '-'"
    else if begins_with (codes "/") text || (ends_with (codes "/") text || occurs (codes "//") text)
    then "must not start or end with '/' or contain '//'"
    else if occurs (codes "..") text || occurs (codes "@{") text
    then "must not contain '..' or '@{'"
    else if ends_with (codes ".") text
    then "must not end with '.'"
    else if any is_bad_part (split_on b'/' text)
    then "must not have a path component starting with '.' or ending with '.lock'"
    else if any is_unfit text
    then "must not contain spaces, control characters or any of ~^:?*[\\"
    else ""

-- the characters that a shell reads in a double-quoted word, in the order of their code points, each as
-- `repr` writes it
unfoldable pub unsafe_characters : List ℕ → List String
unsafe_characters text =
    when (any (nat_eq 34) text) "'\"'"
    ++ (when (any (nat_eq 36) text) "'$'" ++ when (any (nat_eq 96) text) "'`'")

-- `is_control`, a parameter, tells the code points of the Unicode categories Cc, Cs, Zl and Zp.
unfoldable pub branch_name_problem : (ℕ → Bool) → String → String
branch_name_problem is_control name =
    let problem = git_branch_format_problem name in
    let unsafe = unsafe_characters (codes name) in
    if any is_control (codes name)
    then "must not contain control characters or line separators"
    else if given problem
    then "is not a valid Git branch name: " +++ problem
    else if not (is_empty unsafe)
    then "must not contain "
      +++ join " " unsafe
      +++ ": the platform's reusable-implement.yml passes the default branch to `gh pr create --base` inside a double-quoted shell word, where `\"`, `$` and a backtick are shell syntax (and the cloud routine prompt quotes git commands in backticks)"
    else ""

nested :
    git_branch_format_problem "release/1.0.lock/x"
    ≡ "must not have a path component starting with '.' or ending with '.lock'"
unfolding git_branch_format_problem is_bad_part split_on ends_with occurs
nested = refl

plain : git_branch_format_problem "release/1.0" ≡ ""
unfolding git_branch_format_problem is_bad_part split_on ends_with occurs is_unfit
plain = refl
