-- ===== src/Text/Mention.antt =====
-- `<@([A-Z0-9]+)(?:\|[^>]*)?>`, the pattern of a Slack mention: the id, and what follows it.
use Prim.Native.Char.{code}
use hound_bot.Base.{
  ℕ, String, Bool, ◌&&◌, ◌||◌, Option, none, some, ◌==◌, string_eq, nat_eq, leb, if◌then◌else◌,
}

abbrev pub is_id_char : ℕ → Bool
is_id_char c = leb b'A' c && leb c b'Z' || leb b'0' c && leb c b'9'

-- `[A-Z0-9]*`, as long as it goes, and the rest.
unfoldable pub id_run : String → String × String
id_run String.[] = (String.[], String.[])
id_run (String.◌∷◌ c s) =
    let run = id_run s in
    if is_id_char (code c) then (String.◌∷◌ c run.0, run.1) else (String.[], String.◌∷◌ c s)

-- `[^>]*>`: what follows the first `>`.
unfoldable pub after_close : String → Option String
after_close String.[] = none
after_close (String.◌∷◌ c s) = let rest = after_close s in if code c == b'>' then some s else rest

abbrev pub with_id : String → Option String → Option (String × String)
with_id id none = none
with_id id (some rest) = some (id, rest)

-- `(?:\|[^>]*)?>`
unfoldable pub close_mention : String → String → Option (String × String)
unfolding after_close
close_mention id String.[] = none
close_mention id (String.◌∷◌ c s) =
    if code c == b'>'
    then some (id, s)
    else if code c == b'|'
    then with_id id (after_close s)
    else none

unfoldable pub after_open : String → Option (String × String)
unfolding id_run close_mention
after_open s = let run = id_run s in if run.0 == "" then none else close_mention run.0 run.1

-- A mention at the front of the text.
unfoldable pub match_mention : String → Option (String × String)
unfolding after_open
match_mention (String.◌∷◌ a (String.◌∷◌ b s)) =
    if code a == b'<' && code b == b'@' then after_open s else none
match_mention _ = none
