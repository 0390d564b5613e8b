-- ===== src/Text/Split.antt =====
-- Python's `text.partition`-like functions, as the command parsers use them.
use Prim.Native.Char.{code}
use hound_bot.Base.{
  ℕ, zero, suc, ◌-◌, ◌*◌, ◌+◌, String, Bool, true, false, ◌&&◌, Option, none, some, List, [], ◌∷◌,
  ◌==◌, nat_eq, string_eq, leb, if◌then◌else◌,
}
use hound_bot.Base.Int.{ℤ}
use hound_bot.Text.{is_space, is_digit, rev_onto, negate, nonnegative}
use hound_bot.Text.Mention.{match_mention}

-- `text.removeprefix(prefix)` where `text.startswith(prefix)`
unfoldable pub after_prefix : String → String → Option String
after_prefix String.[] text = some text
after_prefix (String.◌∷◌ p ps) String.[] = none
after_prefix (String.◌∷◌ p ps) (String.◌∷◌ c cs) =
    let rest = after_prefix ps cs in if code p == code c then rest else none

-- The first word of a text without leading white space, and the rest.
unfoldable pub split_word : String → String × String
split_word String.[] = (String.[], String.[])
split_word (String.◌∷◌ c s) =
    let parts = split_word s in
    if is_space (code c) then (String.[], String.◌∷◌ c s) else (String.◌∷◌ c parts.0, parts.1)

-- `text.split()[-1]` of a text that is stripped and not empty
unfoldable pub last_word : String → String
unfolding split_word
last_word text = rev_onto (split_word (rev_onto text String.[])).0 String.[]

-- `text.rpartition("|")`, none where there is no bar
unfoldable pub rpartition_bar : String → Option (String × String)
rpartition_bar String.[] = none
rpartition_bar (String.◌∷◌ c s) = elim (rpartition_bar s) [
  | some (before, last) ↦ some (String.◌∷◌ c before, last)
  | none ↦ if code c == b'|' then some (String.[], s) else none
]

-- `text.split("|")`: the first segment and the others.
unfoldable pub split_bar : String → String × List String
split_bar String.[] = (String.[], [])
split_bar (String.◌∷◌ c s) =
    let parts = split_bar s in
    if code c == b'|' then (String.[], parts.0 ∷ parts.1) else (String.◌∷◌ c parts.0, parts.1)

-- `\d+` to the end
unfoldable pub plain_digits : ℕ → List ℕ → Option ℕ
plain_digits acc [] = some acc
plain_digits acc (c ∷ s) =
    let rest = plain_digits (acc * 10 + (c - b'0')) s in if is_digit c then rest else none

abbrev pub digits_of : List ℕ → Option ℕ
digits_of [] = none
digits_of (c ∷ s) = plain_digits 0 (c ∷ s)

-- `(-?\d+)$`
unfoldable pub whole_int : List ℕ → Option ℤ
unfolding plain_digits
whole_int [] = none
whole_int (c ∷ s) = if c == b'-' then negate (digits_of s) else nonnegative (digits_of (c ∷ s))

-- The first letters of the text are those of `prefix` whatever their case.
abbrev pub lower : ℕ → ℕ
lower c = if leb b'A' c && leb c b'Z' then c + 32 else c

unfoldable pub starts_lower : List ℕ → List ℕ → Bool
starts_lower [] text = true
starts_lower (p ∷ ps) [] = false
starts_lower (p ∷ ps) (c ∷ cs) = p == lower c && starts_lower ps cs

-- `MENTION_RE.findall` and `MENTION_RE.sub("", ...)` in one scan; the fuel is the text's length.
unfoldable pub scan_mentions : ℕ → String → List String × String
unfolding match_mention
scan_mentions zero text = ([], text)
scan_mentions (suc fuel) String.[] = ([], String.[])
scan_mentions (suc fuel) (String.◌∷◌ c s) = elim (match_mention (String.◌∷◌ c s)) [
  | some (id, rest) ↦ let parts = scan_mentions fuel rest in (id ∷ parts.0, parts.1)
  | none ↦ let parts = scan_mentions fuel s in (parts.0, String.◌∷◌ c parts.1)
]
