-- ===== src/Text/UrlEncode/Parsed.antt =====
-- Reading an encoded query: `&` between the parameters, `=` between a name and its value.
use Prim.Native.Char.{code}
use hound_bot.Base.{
  ℕ, ◌<◌, ◌/◌, ◌%◌, ◌≡◌, refl, ◌∙◌, ap, sym, String, ◌<>◌, Bool, true, false, not, ◌&&◌, List, [],
  ◌∷◌, ◌++◌, append_assoc, append-nil, All, All-append, All-implies, ◌==◌, nat_eq, if◌then◌else◌,
  Bool-cases, inl, inr, arith, ltb,
}
use hound_bot.Text.{codes}
use hound_bot.Text.UrlEncode.{is_safe, utf8, hex_digit, percents, quote_plus, urlencode}
use hound_bot.Text.UrlEncode.Decoding.{
  codes-append, codes_escape, hex_digit-value, utf8_bytes, IsText, bytes_of, plain, unquote,
  unquote-quote_plus,
}

-- Neither of the separators.
abbrev is_free : ℕ → Bool
is_free c = not (c == b'=') && not (c == b'&')

abbrev IsFree : List ℕ → Type 0
IsFree = All (λ c. is_free c ≡ true)

safe-free : (c : ℕ) → is_safe c ≡ true → is_free c ≡ true
safe-free c h = ground arith

IsFree-percents : (bytes : List ℕ) → All (λ b. b < 256) bytes → IsFree (codes (percents bytes))
unfolding nat_eq
IsFree-percents [] h = _
IsFree-percents (b ∷ bytes) h =
    let hi = hex_digit-value (b / 16) (ground (arith, h.0)) in
    let lo = hex_digit-value (b % 16) (ground arith) in
    rw (codes_escape (hex_digit (b % 16)) (percents bytes) (hex_digit (b / 16)) hi.0 lo.0 hi.1 lo.1)
      (refl, (safe-free hi.0 hi.3, (safe-free lo.0 lo.3, IsFree-percents bytes h.1)))

IsFree-quote_plus : (s : String) → IsText s → IsFree (codes (quote_plus s))
unfolding quote_plus nat_eq
IsFree-quote_plus String.[] h = _
IsFree-quote_plus (String.◌∷◌ c s) h =
    let rest = IsFree-quote_plus s h.1 in
    elim (Bool-cases (is_safe (code c))) [
      | inl e ↦ rw e (safe-free (code c) e, rest)
      | inr e ↦ rw e (elim (Bool-cases (code c == b' ')) [
        | inl e2 ↦ rw (e2, codes-append "+" (quote_plus s)) (refl, rest)
        | inr e2 ↦
            rw (e2, codes-append (percents (utf8 (code c))) (quote_plus s))
              (All-append (λ (x : ℕ). is_free x ≡ true) (codes (percents (utf8 (code c))))
                (codes (quote_plus s)) (IsFree-percents (utf8 (code c)) (utf8_bytes (code c) h.0))
                rest)
      ])
    ]

-- A character before the first part.
abbrev onto : ℕ → List (List ℕ) → List (List ℕ)
onto c [] = (c ∷ []) ∷ []
onto c (part ∷ parts) = (c ∷ part) ∷ parts

abbrev split_at : ℕ → List ℕ → List (List ℕ)
split_at sep [] = [] ∷ []
split_at sep (c ∷ s) = let rest = split_at sep s in if c == sep then [] ∷ rest else onto c rest

abbrev pair_of : List (List ℕ) → List ℕ × List ℕ
pair_of [] = ([], [])
pair_of (name ∷ []) = (unquote plain name, [])
pair_of (name ∷ value ∷ rest) = (unquote plain name, unquote plain value)

abbrev pairs_of : List (List ℕ) → List (List ℕ × List ℕ)
pairs_of [] = []
pairs_of (part ∷ parts) = pair_of (split_at b'=' part) ∷ pairs_of parts

-- `urllib.parse.parse_qsl`, as bytes
abbrev pub parse_qsl : List ℕ → List (List ℕ × List ℕ)
parse_qsl s = pairs_of (split_at b'&' s)

split_at-end : (sep : ℕ) (a : List ℕ) → All (λ c. c == sep ≡ false) a → split_at sep a ≡ a ∷ []
split_at-end sep [] h = refl
split_at-end sep (c ∷ a) h = rw (h.0, split_at-end sep a h.1) refl

split_at-sep :
    (sep : ℕ) (a b : List ℕ)
    → sep == sep ≡ true
    → All (λ c. c == sep ≡ false) a
    → split_at sep (a ++ (sep ∷ b)) ≡ a ∷ split_at sep b
split_at-sep sep [] b e h = rw e refl
split_at-sep sep (c ∷ a) b e h = rw (h.0, split_at-sep sep a b e h.1) refl

module _ (s : String) (h : IsText s) where
  not_equals : All (λ c. c == b'=' ≡ false) (codes (quote_plus s))
  not_equals =
      All-implies (λ (c : ℕ). is_free c ≡ true) (λ c. c == b'=' ≡ false) (codes (quote_plus s))
        (λ c e. ground arith) (IsFree-quote_plus s h)

  not_ampersand : All (λ c. c == b'&' ≡ false) (codes (quote_plus s))
  not_ampersand =
      All-implies (λ (c : ℕ). is_free c ≡ true) (λ c. c == b'&' ≡ false) (codes (quote_plus s))
        (λ c e. ground arith) (IsFree-quote_plus s h)

  unquote-all : unquote plain (codes (quote_plus s)) ≡ bytes_of (codes s)
  unquote-all =
      ap (λ (l : List ℕ). unquote plain l) (sym (append-nil (codes (quote_plus s))))
      ∙ unquote-quote_plus s [] h
      ∙ append-nil (bytes_of (codes s))

abbrev pub param_bytes : String × String → List ℕ × List ℕ
param_bytes (name, value) = (bytes_of (codes name), bytes_of (codes value))

abbrev param : String → String → List ℕ
param name value = codes (quote_plus name) ++ (b'=' ∷ codes (quote_plus value))

abbrev pub ParamsAreText : List (String × String) → Type 0
ParamsAreText = All (λ p. IsText p.0 × IsText p.1)

codes_of_params :
    (name value rest : String)
    → codes (quote_plus name <> "=" <> quote_plus value <> rest) ≡ param name value ++ codes rest
unfolding nat_eq
codes_of_params name value rest =
    codes-append (quote_plus name) ("=" <> quote_plus value <> rest)
    ∙ ap (λ (l : List ℕ). codes (quote_plus name) ++ l)
        (codes-append "=" (quote_plus value <> rest)
          ∙ ap (λ (l : List ℕ). b'=' ∷ l) (codes-append (quote_plus value) rest))
    ∙ sym (append_assoc (codes (quote_plus name)) (b'=' ∷ codes (quote_plus value)) (codes rest))

pair_of-param :
    (name value : String)
    → IsText name
    → IsText value
    → pair_of (split_at b'=' (param name value)) ≡ param_bytes (name, value)
unfolding nat_eq
pair_of-param name value hn hv =
    ap pair_of (
      split_at-sep b'=' (codes (quote_plus name)) (codes (quote_plus value)) refl
        (not_equals name hn))
    ∙ rw
        (
          split_at-end b'=' (codes (quote_plus value)) (not_equals value hv),
          unquote-all name hn,
          unquote-all value hv,
        )
        refl

param-ampersand :
    (name value : String)
    → IsText name
    → IsText value
    → All (λ c. c == b'&' ≡ false) (param name value)
unfolding nat_eq
param-ampersand name value hn hv =
    All-append (λ (c : ℕ). c == b'&' ≡ false) (codes (quote_plus name)) _ (not_ampersand name hn)
      (refl, not_ampersand value hv)

abbrev pub params_bytes : List (String × String) → List (List ℕ × List ℕ)
params_bytes [] = []
params_bytes (p ∷ ps) = param_bytes p ∷ params_bytes ps

pub parse_qsl-urlencode :
    (p : String × String) (ps : List (String × String))
    → ParamsAreText (p ∷ ps)
    → parse_qsl (codes (urlencode (p ∷ ps))) ≡ params_bytes (p ∷ ps)
unfolding urlencode nat_eq
parse_qsl-urlencode (name, value) [] h =
    ap parse_qsl (
      codes-append (quote_plus name) ("=" <> quote_plus value)
      ∙ ap (λ (l : List ℕ). codes (quote_plus name) ++ l) (codes-append "=" (quote_plus value)))
    ∙ ap pairs_of (split_at-end b'&' (param name value) (param-ampersand name value h.0.0 h.0.1))
    ∙ rw (pair_of-param name value h.0.0 h.0.1) refl
parse_qsl-urlencode (name, value) (p ∷ ps) h =
    ap parse_qsl (
      codes_of_params name value ("&" <> urlencode (p ∷ ps))
      ∙ ap (λ (l : List ℕ). param name value ++ l) (codes-append "&" (urlencode (p ∷ ps))))
    ∙ ap pairs_of (
        split_at-sep b'&' (param name value) (codes (urlencode (p ∷ ps))) refl
          (param-ampersand name value h.0.0 h.0.1))
    ∙ rw (pair_of-param name value h.0.0 h.0.1, parse_qsl-urlencode p ps h.1) refl

-- What follows the first `?`.
abbrev pub query_of : List ℕ → List ℕ
query_of [] = []
query_of (c ∷ s) = if c == b'?' then s else query_of s

abbrev query_free : List ℕ → Bool
query_free [] = true
query_free (c ∷ s) = not (c == b'?') && query_free s

query_of-after : (a q : List ℕ) → query_free a ≡ true → query_of (a ++ (b'?' ∷ q)) ≡ q
unfolding nat_eq
query_of-after [] q h = refl
query_of-after (c ∷ a) q h = rw (no_mark h, query_of-after a q (ground (arith, h))) refl
  where
    no_mark : not (c == b'?') && query_free a ≡ true → c == b'?' ≡ false
    no_mark h = ground arith

pub query_of-urlencode :
    (base : String) (p : String × String) (ps : List (String × String))
    → query_free (codes base) ≡ true
    → ParamsAreText (p ∷ ps)
    → parse_qsl (query_of (codes (base <> "?" <> urlencode (p ∷ ps)))) ≡ params_bytes (p ∷ ps)
query_of-urlencode base p ps b h =
    ap (λ (l : List ℕ). parse_qsl (query_of l))
      (codes-append base ("?" <> urlencode (p ∷ ps))
        ∙ ap (λ (l : List ℕ). codes base ++ l) (codes-append "?" (urlencode (p ∷ ps))))
    ∙ ap parse_qsl (query_of-after (codes base) (codes (urlencode (p ∷ ps))) b)
    ∙ parse_qsl-urlencode p ps h

abbrev all_below : List ℕ → Bool
all_below [] = true
all_below (c ∷ s) = ltb c 1_114_112 && all_below s

below-All : (s : List ℕ) → all_below s ≡ true → All (λ c. c < 1_114_112) s
below-All [] h = _
below-All (c ∷ s) h = (ground arith, below-All s (ground arith))

-- A text that is written out.
pub IsText-decided : (s : String) → all_below (codes s) ≡ true → IsText s
IsText-decided s = below-All (codes s)
