-- ===== src/Text.antt =====
-- Python's `int(text)` and `text.strip()`, and the source's patterns for Slack mentions.
-- Only ASCII digits and white space are read; Python also accepts those of other scripts.
pub mod Mention
pub mod Split
pub mod UrlEncode
use Prim.Native.Char.{code}
use hound_bot.Base.{
  ℕ, ◌+◌, ◌-◌, ◌*◌, String, Bool, true, false, ◌&&◌, ◌||◌, Option, none, some, List, [], ◌∷◌, ◌==◌,
  nat_eq, string_eq, leb, if◌then◌else◌,
}
use hound_bot.Base.Int.{ℤ, pos, negsuc}

abbrev pub codes : String → List ℕ
codes String.[] = []
codes (String.◌∷◌ c s) = code c ∷ codes s

-- Tab to carriage return, the separators 28 to 31, and the space.
abbrev pub is_space : ℕ → Bool
is_space c = leb 9 c && leb c 13 || leb 28 c && leb c 32

-- `text.lstrip()`, also what a trailing `\s*` of a pattern takes
unfoldable pub lstrip : String → String
lstrip String.[] = String.[]
lstrip (String.◌∷◌ c s) = let rest = lstrip s in if is_space (code c) then rest else String.◌∷◌ c s

abbrev pub rev_onto : String → String → String
rev_onto String.[] acc = acc
rev_onto (String.◌∷◌ c s) acc = rev_onto s (String.◌∷◌ c acc)

unfoldable pub strip : String → String
unfolding lstrip
strip s = rev_onto (lstrip (rev_onto (lstrip s) String.[])) String.[]

-- `base.rstrip("/")`
unfoldable pub rstrip_slash : String → String
rstrip_slash String.[] = String.[]
rstrip_slash (String.◌∷◌ c s) =
    let rest = rstrip_slash s in
    if code c == b'/' && rest == "" then String.[] else String.◌∷◌ c rest

abbrev pub is_digit : ℕ → Bool
is_digit c = leb b'0' c && leb c b'9'

-- Digits with single underscores between them; the flag is set after a digit.
unfoldable pub digits : Bool → ℕ → List ℕ → Option ℕ
digits after_digit acc [] = if after_digit then some acc else none
digits after_digit acc (c ∷ s) =
    let next = digits true (acc * 10 + (c - b'0')) s in
    let skipped = digits false acc s in
    if is_digit c then next else if c == b'_' && after_digit then skipped else none

abbrev pub nonnegative : Option ℕ → Option ℤ
nonnegative none = none
nonnegative (some n) = some (pos n)

abbrev pub negate : Option ℕ → Option ℤ
negate none = none
negate (some n) = some (if n == 0 then pos 0 else negsuc (n - 1))

unfoldable pub signed : List ℕ → Option ℤ
unfolding digits
signed [] = none
signed (c ∷ s) =
    if c == b'-'
    then negate (digits false 0 s)
    else nonnegative (if c == b'+' then digits false 0 s else digits false 0 (c ∷ s))

-- `int(text)`; none is ValueError.
unfoldable pub parse_int : String → Option ℤ
unfolding strip signed
parse_int text = signed (codes (strip text))
