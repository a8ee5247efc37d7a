-- ===== src/Policy/Paths.antt =====
-- How a path matches patterns (`_matches` of src/agentic_sdlc/policy.py).
use agentic_sdlc.Base.{ℕ, String, Bool, List, ◌∷◌, nat_eq, any, codes, if◌then◌else◌, ◌&&◌}
use agentic_sdlc.Glob.{fnmatch_codes}

-- path.removeprefix("./")
unfoldable pub normalized : String → List ℕ
normalized path = elim (codes path) [
  | a ∷ b ∷ rest ↦ if nat_eq a b'.' && nat_eq b b'/' then rest else a ∷ b ∷ rest
  | short ↦ short
]

-- `_matches(path, patterns)`
unfoldable pub matches : String → List String → Bool
unfolding normalized
matches path patterns = any (λ p. fnmatch_codes (normalized path) (codes p)) patterns

-- `_matches(path, patterns, casefold=True)`; `casefold`, a parameter, is `str.casefold` on code points.
unfoldable pub matches_folded : (List ℕ → List ℕ) → String → List String → Bool
unfolding normalized
matches_folded casefold path patterns =
    any (λ p. fnmatch_codes (casefold (normalized path)) (casefold (codes p))) patterns
