-- ===== src/Glob.antt =====
-- Python's `fnmatch`, by which src/agentic_sdlc/work_graph.py and src/agentic_sdlc/policy.py match paths:
-- `*` stands for any text, also with a slash, `?` for one character, `[...]` for one of a set. The case of
-- letters counts, as on POSIX systems.
use agentic_sdlc.Base.{
  ℕ, zero, suc, ◌+◌, ◌≡◌, refl, String, Bool, true, false, not, ◌||◌, ◌&&◌, Option, none, some,
  List, [], ◌∷◌, length, nat_eq, leb, codes, if◌then◌else◌,
}

pub data Item : Type 0 where
  star any_one : Item
  lit : ℕ → Item
  one_of : (negated : Bool) → List (ℕ × ℕ) → Item

-- the text in front of the next `]`, if there is one
until_bracket : List ℕ → Option (List ℕ)
until_bracket [] = none
until_bracket (c ∷ cs) =
    let rest = until_bracket cs in
    if nat_eq c b']' then some [] else elim rest [ none ↦ none | some stuff ↦ some (c ∷ stuff) ]

-- a `]` in the first place belongs to the set
set_text : List ℕ → Option (List ℕ)
set_text [] = none
set_text (c ∷ cs) =
    if nat_eq c b']'
    then elim (until_bracket cs) [ none ↦ none | some stuff ↦ some (c ∷ stuff) ]
    else until_bracket (c ∷ cs)

-- the single characters and the ranges of a set
spans : List ℕ → List (ℕ × ℕ)
spans [] = []
spans (c ∷ []) = (c, c) ∷ []
spans (c ∷ d ∷ []) = (c, c) ∷ (d, d) ∷ []
spans (c ∷ d ∷ e ∷ cs) =
    let range = (c, e) ∷ spans cs in
    let single = (c, c) ∷ spans (d ∷ e ∷ cs) in if nat_eq d b'-' then range else single

-- whether the text behind a `[` is negated, and what it is with the `!` dropped
negated : List ℕ → Bool
negated [] = false
negated (c ∷ cs) = nat_eq c b'!'

body : List ℕ → List ℕ
body [] = []
body (c ∷ cs) = if nat_eq c b'!' then cs else c ∷ cs

-- how many characters a set takes behind its `[`
width : List ℕ → List ℕ → ℕ
width cs stuff = suc (length stuff) + (if negated cs then 1 else 0)

-- the items of a pattern, the first `skip` characters of which belong to a set that is read
unfoldable pub items : ℕ → List ℕ → List Item
unfolding until_bracket set_text spans negated body width
items skip [] = []
items (suc skip) (c ∷ cs) = items skip cs
items zero (c ∷ cs) =
    let rest = items zero cs in
    if nat_eq c b'*'
    then star ∷ rest
    else if nat_eq c b'?'
    then any_one ∷ rest
    else if nat_eq c b'['
    then elim (set_text (body cs)) [
      | none ↦ lit c ∷ rest
      | some stuff ↦ one_of (negated cs) (spans stuff) ∷ items (width cs stuff) cs
    ]
    else lit c ∷ rest

within : ℕ → List (ℕ × ℕ) → Bool
within c [] = false
within c ((lo, hi) ∷ rest) = (leb lo c && leb c hi) || within c rest

unfoldable pub accepts : Item → ℕ → Bool
unfolding within
accepts star c = false
accepts any_one c = true
accepts (lit d) c = nat_eq c d
accepts (one_of negated set) c = if negated then not (within c set) else within c set

unfoldable pub matches_items : List Item → List ℕ → Bool
matches_items [] [] = true
matches_items [] (c ∷ cs) = false
matches_items (star ∷ is) [] = matches_items is []
matches_items (star ∷ is) (c ∷ cs) = elim (matches_items is (c ∷ cs)) [
  | true ↦ true
  | false ↦ matches_items (star ∷ is) cs
]
matches_items (i ∷ is) [] = false
matches_items (i ∷ is) (c ∷ cs) = elim (accepts i c) [ true ↦ matches_items is cs | false ↦ false ]

-- fnmatch.fnmatch(name, pattern), both as code points
unfoldable pub fnmatch_codes : List ℕ → List ℕ → Bool
unfolding matches_items items accepts
fnmatch_codes name pattern = matches_items (items zero pattern) name

unfoldable pub fnmatch : String → String → Bool
unfolding fnmatch_codes
fnmatch name pattern = fnmatch_codes (codes name) (codes pattern)

stars_cross_slashes : fnmatch "docs/a/b.md" "docs/**" ≡ true
unfolding fnmatch
stars_cross_slashes = refl

sets : fnmatch "a-]x9" "[!b-z]-[]x][a-x-][0-9]" ≡ true
unfolding fnmatch
sets = refl
