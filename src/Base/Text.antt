-- ===== src/Base/Text.antt =====
-- Python's `str`: stripping, blank texts, lower case, joining, decimals and substrings.
use Prim.Native.Nat.{ℕ, zero, suc, ◌+◌, ◌/◌, ◌%◌}
use Prim.Native.Char.{code}
use Prim.Native.String.{String, ◌++◌}
use mathlib.Core.Path.{◌≡◌, refl}
use mathlib.Core.Bool.{Bool, true, false, not, ◌&&◌, ◌||◌}
use mathlib.Core.List.{List, [], ◌∷◌}
use text.Mathlib.Text.{◌==◌}
use agentic_sdlc.Base.Tests.{leb, ltb, nat_eq, if◌then◌else◌}

-- `str.isspace` of one code point.
abbrev pub is_space : ℕ → Bool
is_space c =
    (leb 9 c && leb c 13)
    || ((leb 28 c && leb c 32)
        || (nat_eq c 133
            || (nat_eq c 160
                || (nat_eq c 5760
                    || ((leb 8192 c && leb c 8202)
                        || ((leb 8232 c && leb c 8233)
                            || (nat_eq c 8239 || (nat_eq c 8287 || nat_eq c 12288))))))))

-- s.lstrip()
unfoldable pub lstrip : String → String
lstrip String.[] = ""
lstrip (String.◌∷◌ c s) = let rest = lstrip s in if is_space (code c) then rest else String.◌∷◌ c s

-- s.rstrip()
unfoldable pub rstrip : String → String
rstrip String.[] = ""
rstrip (String.◌∷◌ c s) =
    let rest = rstrip s in if is_space (code c) && rest == "" then "" else String.◌∷◌ c rest

-- s.strip()
unfoldable pub strip : String → String
unfolding lstrip rstrip
strip s = rstrip (lstrip s)

-- bool(s)
abbrev pub given : String → Bool
given s = not (s == "")

-- bool(s.strip())
abbrev pub has_text : String → Bool
has_text s = given (strip s)

-- The code points of a text.
abbrev pub codes : String → List ℕ
codes String.[] = []
codes (String.◌∷◌ c s) = code c ∷ codes s

abbrev pub same_codes : List ℕ → List ℕ → Bool
same_codes [] [] = true
same_codes [] (y ∷ ys) = false
same_codes (x ∷ xs) [] = false
same_codes (x ∷ xs) (y ∷ ys) = nat_eq x y && same_codes xs ys

-- `str.lower` of an ASCII code point. No other code point lowers to one of the letters of the
-- words that the program compares a lowered text with, so the comparisons have the same outcome.
abbrev pub lower : ℕ → ℕ
lower c = if leb 65 c && leb c 90 then c + 32 else c

abbrev pub map_codes : (ℕ → ℕ) → String → List ℕ
map_codes f String.[] = []
map_codes f (String.◌∷◌ c s) = f (code c) ∷ map_codes f s

-- sep.join(parts)
unfoldable pub join : String → List String → String
join sep [] = ""
join sep (p ∷ []) = p
join sep (p ∷ q ∷ rest) = p ++ sep ++ join sep (q ∷ rest)

abbrev digit : ℕ → String
digit d =
    if nat_eq d 0
    then "0"
    else if nat_eq d 1
    then "1"
    else if nat_eq d 2
    then "2"
    else if nat_eq d 3
    then "3"
    else if nat_eq d 4
    then "4"
    else if nat_eq d 5
    then "5"
    else if nat_eq d 6
    then "6"
    else if nat_eq d 7
    then "7"
    else if nat_eq d 8
    then "8"
    else "9"

show_from : ℕ → ℕ → String → String
show_from zero n tail = tail
show_from (suc fuel) n tail =
    let more = show_from fuel (n / 10) (digit (n % 10) ++ tail) in
    if ltb n 10 then digit n ++ tail else more

-- str(n) of a natural number: one round for each digit, so `suc n` rounds are enough.
unfoldable pub show : ℕ → String
unfolding show_from
show n = show_from (suc n) n ""

-- Whether the text begins with the part.
abbrev pub begins_with : List ℕ → List ℕ → Bool
begins_with [] text = true
begins_with (p ∷ part) [] = false
begins_with (p ∷ part) (c ∷ text) = nat_eq p c && begins_with part text

-- `part in text`
unfoldable pub occurs : List ℕ → List ℕ → Bool
occurs part [] = begins_with part []
occurs part (c ∷ text) = begins_with part (c ∷ text) || occurs part text

unfoldable pub all_codes : (ℕ → Bool) → String → Bool
all_codes p String.[] = true
all_codes p (String.◌∷◌ c s) = p (code c) && all_codes p s

unfoldable pub code_count : String → ℕ
code_count String.[] = 0
code_count (String.◌∷◌ c s) = suc (code_count s)

strip_test : strip " \t forge-managed \n" ≡ "forge-managed"
unfolding strip
strip_test = refl

blank_test : has_text " \t " ≡ false
unfolding strip
blank_test = refl

show_test : show 4207 ≡ "4207"
unfolding show
show_test = refl
