-- ===== src/Prelude/Texts.antt =====
-- Texts put together as the source's template literals put them.
use mathlib.Core.Path.{◌≡◌}
use native.Mathlib.Omega.{arith}
use text.Mathlib.TextEquality.{eq_iff}
use Prim.Native.String.{String}
use Prim.Native.String
use Prim.Native.Nat.{ℕ, zero, suc, ◌+◌, ◌-◌}
use Prim.Native.Char.{code}
use text.Mathlib.Text.{find?}
use chanter_operator.Prelude.Tests.{leb, ltb, nat_eq, is_some, if◌then◌else◌}
use mathlib.Core.List.{List, [], ◌∷◌}
use mathlib.Core.Bool.{Bool, true, false, not, ◌&&◌, ◌||◌}
use mathlib.Core.Option.{Option, none, some}
use text.Mathlib.Text.{◌==◌}

abbrev pub template : List String → String
template [] = ""
template (s ∷ rest) = String.◌++◌ s (template rest)

-- `Boolean(s)` of a string that may be missing
abbrev pub truthy : Option String → Bool
truthy none = false
truthy (some s) = not (s == "")

-- `value === s` of a string that may be missing, and SQL's `column = ?`
abbrev pub same_text : Option String → String → Bool
same_text none s = false
same_text (some t) s = t == s

-- The code points that String.prototype.trim removes: WhiteSpace and LineTerminator of ECMAScript.
abbrev pub is_space : ℕ → Bool
is_space c =
    (leb 0x09 c && leb c 0x0d)
    || nat_eq c 0x20
    || nat_eq c 0xa0
    || nat_eq c 0x1680
    || (leb 0x2000 c && leb c 0x200a)
    || nat_eq c 0x2028
    || nat_eq c 0x2029
    || nat_eq c 0x202f
    || nat_eq c 0x205f
    || nat_eq c 0x3000
    || nat_eq c 0xfeff

trim_start : String → String
trim_start String.[] = ""
trim_start (String.◌∷◌ c s) =
    let rest = trim_start s in if is_space (code c) then rest else String.◌∷◌ c s

trim_end : String → String
trim_end String.[] = ""
trim_end (String.◌∷◌ c s) =
    let rest = trim_end s in if is_space (code c) && rest == "" then "" else String.◌∷◌ c rest

unfoldable pub trim : String → String
unfolding trim_start trim_end
trim s = trim_end (trim_start s)

-- `s.length`, which counts UTF-16 code units.
unfoldable pub length_of : String → ℕ
length_of String.[] = 0
length_of (String.◌∷◌ c s) = (if ltb (code c) 0x10000 then 1 else 2) + length_of s

-- Whether all code points pass a test.
unfoldable pub every_code : (ℕ → Bool) → String → Bool
every_code p String.[] = true
every_code p (String.◌∷◌ c s) = p (code c) && every_code p s

-- `s.slice(0, n)`; a surrogate pair that the cut would split is left out whole.
unfoldable pub slice_to : ℕ → String → String
slice_to n String.[] = ""
slice_to n (String.◌∷◌ c s) =
    let width : ℕ = if ltb (code c) 0x10000 then 1 else 2 in
    let rest = slice_to (n - width) s in if leb width n then String.◌∷◌ c rest else ""

-- `s.includes(t)`
unfoldable pub includes : String → String → Bool
includes s t = is_some (find? s t)

-- A number in a template literal: decimal digits, kept with the last one first.
abbrev pub increment : List ℕ → List ℕ
increment [] = 1 ∷ []
increment (d ∷ ds) = let rest = increment ds in if ltb d 9 then suc d ∷ ds else 0 ∷ rest

abbrev pub digits : ℕ → List ℕ
digits zero = 0 ∷ []
digits (suc n) = increment (digits n)

abbrev pub digit_at : ℕ → List String → String
digit_at n [] = ""
digit_at zero (t ∷ ts) = t
digit_at (suc n) (t ∷ ts) = digit_at n ts

abbrev pub digit : ℕ → String
digit d = digit_at d ("0" ∷ "1" ∷ "2" ∷ "3" ∷ "4" ∷ "5" ∷ "6" ∷ "7" ∷ "8" ∷ "9" ∷ [])

abbrev pub render : List ℕ → String
render [] = ""
render (d ∷ ds) = template (render ds ∷ digit d ∷ [])

unfoldable pub decimal : ℕ → String
decimal n = render (digits n)

-- Array.prototype.join
abbrev pub join : String → List String → String
join separator [] = ""
join separator (s ∷ []) = s
join separator (s ∷ t ∷ rest) = template (s ∷ separator ∷ join separator (t ∷ rest) ∷ [])

pub eq_turn : (s t : String) → (s == t) ≡ (t == s)
eq_turn s t = ground (arith, eq_iff s t, eq_iff t s)
