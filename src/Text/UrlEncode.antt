-- ===== src/Text/UrlEncode.antt =====
-- `urllib.parse.urlencode`, which app/calendar/google_calendar.py and app/services/slack_oauth.py
-- build their URLs with: `quote_plus` of the names and values, which takes the bytes of UTF-8.
pub mod Decoding
pub mod Parsed
use Prim.Native.Char.{code}
use hound_bot.Base.{
  ℕ, zero, suc, ◌+◌, ◌*◌, ◌/◌, ◌%◌, String, ◌<>◌, Bool, ◌&&◌, ◌||◌, List, [], ◌∷◌, ◌==◌, nat_eq,
  leb, ltb, if◌then◌else◌,
}

-- Letters, digits and `_.-~`.
abbrev pub is_safe : ℕ → Bool
is_safe c =
    leb b'A' c && leb c b'Z'
    || leb b'a' c && leb c b'z'
    || leb b'0' c && leb c b'9'
    || c == b'_'
    || c == b'.'
    || c == b'-'
    || c == b'~'

abbrev pub utf8 : ℕ → List ℕ
utf8 c =
    if ltb c 128
    then c ∷ []
    else if ltb c 2048
    then (192 + c / 64) ∷ (128 + c % 64) ∷ []
    else if ltb c 65_536
    then (224 + c / 4096) ∷ (128 + c / 64 % 64) ∷ (128 + c % 64) ∷ []
    else (240 + c / 262_144) ∷ (128 + c / 4096 % 64) ∷ (128 + c / 64 % 64) ∷ (128 + c % 64) ∷ []

-- The text of the n-th character.
abbrev pub nth : ℕ → String → String
nth n String.[] = ""
nth zero (String.◌∷◌ c s) = String.◌∷◌ c String.[]
nth (suc n) (String.◌∷◌ c s) = nth n s

abbrev pub hex_digit : ℕ → String
hex_digit n = nth n "0123456789ABCDEF"

-- `"%{:02X}".format(byte)`
abbrev pub percents : List ℕ → String
percents [] = ""
percents (b ∷ bytes) = "%" <> hex_digit (b / 16) <> hex_digit (b % 16) <> percents bytes

unfoldable pub quote_plus : String → String
quote_plus String.[] = String.[]
quote_plus (String.◌∷◌ c s) =
    let rest = quote_plus s in
    if is_safe (code c)
    then String.◌∷◌ c rest
    else if code c == b' '
    then "+" <> rest
    else percents (utf8 (code c)) <> rest

unfoldable pub urlencode : List (String × String) → String
unfolding quote_plus
urlencode [] = ""
urlencode ((name, value) ∷ []) = quote_plus name <> "=" <> quote_plus value
urlencode ((name, value) ∷ next ∷ params) =
    let rest = urlencode (next ∷ params) in
    quote_plus name <> "=" <> quote_plus value <> "&" <> rest
