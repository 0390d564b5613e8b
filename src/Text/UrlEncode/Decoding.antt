-- ===== src/Text/UrlEncode/Decoding.antt =====
-- Splitting an encoded query and decoding its parts gives back the parameters.
use Prim.Native.Char.{code}
use Prim.Native.String.append
use hound_bot.Base.{
  ℕ, zero, suc, ◌+◌, ◌-◌, ◌*◌, ◌/◌, ◌%◌, ◌<◌, ◌≡◌, refl, ◌∙◌, ap, sym, String, ◌<>◌, true, List, [],
  ◌∷◌, ◌++◌, append_assoc, All, ◌==◌, nat_eq, leb, ltb, if◌then◌else◌, Bool-cases, inl, inr, arith,
}
use hound_bot.Text.{codes}
use hound_bot.Text.UrlEncode.{is_safe, utf8, hex_digit, percents, quote_plus}

pub codes-append : (a b : String) → codes (a <> b) ≡ codes a ++ codes b
codes-append String.[] b = ap codes (append.nil b)
codes-append (String.◌∷◌ c a) b =
    ap codes (append.cons c a b) ∙ ap (λ l. code c ∷ l) (codes-append a b)

-- The bytes of a text in UTF-8.
abbrev pub bytes_of : List ℕ → List ℕ
bytes_of [] = []
bytes_of (c ∷ s) = utf8 c ++ bytes_of s

abbrev hex_value : ℕ → ℕ
hex_value c = if leb c b'9' then c - b'0' else c - b'A' + 10

-- What an escape has read: nothing, its `%`, or its first digit.
pub data Mode : Type 0 where
  plain high : Mode
  low : ℕ → Mode

abbrev next : Mode → ℕ → Mode
next plain c = if c == b'%' then high else plain
next high c = low (hex_value c)
next (low d) c = plain

abbrev emit : Mode → ℕ → List ℕ
emit plain c = if c == b'%' then [] else if c == b'+' then b' ' ∷ [] else c ∷ []
emit high c = []
emit (low d) c = (d * 16 + hex_value c) ∷ []

-- `unquote_plus`, as the bytes of the text
abbrev pub unquote : Mode → List ℕ → List ℕ
unquote m [] = []
unquote m (c ∷ s) = emit m c ++ unquote (next m c) s

pub hex_digit-value :
    (n : ℕ)
    → n < 16
    → (c : ℕ) × (codes (hex_digit n) ≡ c ∷ []) × (hex_value c ≡ n) × (is_safe c ≡ true)
hex_digit-value zero h = (_, refl, refl, refl)
hex_digit-value (suc zero) h = (_, refl, refl, refl)
hex_digit-value (suc (suc zero)) h = (_, refl, refl, refl)
hex_digit-value (suc (suc (suc zero))) h = (_, refl, refl, refl)
hex_digit-value (suc (suc (suc (suc zero)))) h = (_, refl, refl, refl)
hex_digit-value (suc (suc (suc (suc (suc zero))))) h = (_, refl, refl, refl)
hex_digit-value (suc (suc (suc (suc (suc (suc zero)))))) h = (_, refl, refl, refl)
hex_digit-value (suc (suc (suc (suc (suc (suc (suc zero))))))) h = (_, refl, refl, refl)
hex_digit-value (suc (suc (suc (suc (suc (suc (suc (suc zero)))))))) h = (_, refl, refl, refl)
hex_digit-value (suc (suc (suc (suc (suc (suc (suc (suc (suc zero))))))))) h = (_, refl, refl, refl)
hex_digit-value (suc (suc (suc (suc (suc (suc (suc (suc (suc (suc zero)))))))))) h =
    (_, refl, refl, refl)
hex_digit-value (suc (suc (suc (suc (suc (suc (suc (suc (suc (suc (suc zero))))))))))) h =
    (_, refl, refl, refl)
hex_digit-value (suc (suc (suc (suc (suc (suc (suc (suc (suc (suc (suc (suc zero)))))))))))) h =
    (_, refl, refl, refl)
hex_digit-value (suc (suc (suc (suc (suc (suc (suc (suc (suc (suc (suc (suc (suc zero)))))))))))))
      h =
    (_, refl, refl, refl)
hex_digit-value
      (suc (suc (suc (suc (suc (suc (suc (suc (suc (suc (suc (suc (suc (suc zero)))))))))))))) h =
    (_, refl, refl, refl)
hex_digit-value
      (suc (suc (suc (suc (suc (suc (suc (suc (suc (suc (suc (suc (suc (suc (suc zero)))))))))))))))
      h =
    (_, refl, refl, refl)
hex_digit-value
      (suc
        (suc (suc (suc (suc (suc (suc (suc (suc (suc (suc (suc (suc (suc (suc (suc n))))))))))))))))
      h =
    ground arith

unquote_safe :
    (c : ℕ) (t : List ℕ) → is_safe c ≡ true → unquote plain (c ∷ t) ≡ utf8 c ++ unquote plain t
unquote_safe c t h = ground arith

pub codes_escape :
    (b p : String) (a : String) (x y : ℕ)
    → codes a ≡ x ∷ []
    → codes b ≡ y ∷ []
    → codes ("%" <> a <> b <> p) ≡ b'%' ∷ x ∷ y ∷ codes p
codes_escape b p a x y ha hb =
    codes-append "%" (a <> b <> p)
    ∙ ap (λ (l : List ℕ). b'%' ∷ l)
        (codes-append a (b <> p)
          ∙ ap (λ (l : List ℕ). l ++ codes (b <> p)) ha
          ∙ ap (λ (l : List ℕ). x ∷ l) (codes-append b p ∙ ap (λ (l : List ℕ). l ++ codes p) hb))

unquote-percents :
    (bytes t : List ℕ)
    → All (λ b. b < 256) bytes
    → unquote plain (codes (percents bytes) ++ t) ≡ bytes ++ unquote plain t
unfolding nat_eq
unquote-percents [] t h = refl
unquote-percents (b ∷ bytes) t h =
    let hi = hex_digit-value (b / 16) (ground (arith, h.0)) in
    let lo = hex_digit-value (b % 16) (ground arith) in
    ap (λ (l : List ℕ). unquote plain (l ++ t))
      (codes_escape (hex_digit (b % 16)) (percents bytes) (hex_digit (b / 16)) hi.0 lo.0 hi.1 lo.1)
    ∙ byte hi.0 lo.0 hi.2 lo.2
    ∙ ap (λ (l : List ℕ). b ∷ l) (unquote-percents bytes t h.1)
  where
    byte :
        (x y : ℕ)
        → hex_value x ≡ b / 16
        → hex_value y ≡ b % 16
        → unquote plain (b'%' ∷ x ∷ y ∷ (codes (percents bytes) ++ t))
          ≡ b ∷ unquote plain (codes (percents bytes) ++ t)
    byte x y hx hy =
        rw (hx, hy) (ap (λ (n : ℕ). n ∷ unquote plain (codes (percents bytes) ++ t)) (omega arith))

codes-append_to : (a b : String) (t : List ℕ) → codes (a <> b) ++ t ≡ codes a ++ (codes b ++ t)
codes-append_to a b t =
    ap (λ (l : List ℕ). l ++ t) (codes-append a b) ∙ append_assoc (codes a) (codes b) t

utf8_space :
    (c : ℕ) (t : List ℕ) → c == b' ' ≡ true → unquote plain (b'+' ∷ t) ≡ utf8 c ++ unquote plain t
utf8_space c t e = ground arith

pub utf8_bytes : (c : ℕ) → c < 1_114_112 → All (λ b. b < 256) (utf8 c)
utf8_bytes c h = elim (Bool-cases (ltb c 128)) [
  | inl e ↦ rw e (ground arith, tt)
  | inr e ↦ rw e (elim (Bool-cases (ltb c 2048)) [
    | inl e2 ↦ rw e2 (ground arith, (omega arith, tt))
    | inr e2 ↦ rw e2 (elim (Bool-cases (ltb c 65_536)) [
      | inl e3 ↦ rw e3 (ground arith, (omega arith, (omega arith, tt)))
      | inr e3 ↦ rw e3 (omega arith, (omega arith, (omega arith, (omega arith, tt))))
    ])
  ])
]

-- A text, as the numbers of its characters.
abbrev pub IsText : String → Type 0
IsText s = All (λ c. c < 1_114_112) (codes s)

read_on : {x : List ℕ} (l a t : List ℕ) → x ≡ a ++ t → l ++ x ≡ (l ++ a) ++ t
read_on l a t e = ap (λ (r : List ℕ). l ++ r) e ∙ sym (append_assoc l a t)

pub unquote-quote_plus :
    (s : String) (t : List ℕ)
    → IsText s
    → unquote plain (codes (quote_plus s) ++ t) ≡ bytes_of (codes s) ++ unquote plain t
unfolding quote_plus
unquote-quote_plus String.[] t h = refl
unquote-quote_plus (String.◌∷◌ c s) t h = elim (Bool-cases (is_safe (code c))) [
  | inl e ↦ rw e (
      unquote_safe (code c) (codes (quote_plus s) ++ t) e
      ∙ ap (λ (l : List ℕ). utf8 (code c) ++ l) (unquote-quote_plus s t h.1)
      ∙ sym (append_assoc (utf8 (code c)) (bytes_of (codes s)) (unquote plain t)))
  | inr e ↦ rw e (elim (Bool-cases (code c == b' ')) [
    | inl e2 ↦ rw e2 (
        ap (λ (l : List ℕ). unquote plain l) (codes-append_to "+" (quote_plus s) t)
        ∙ utf8_space (code c) (codes (quote_plus s) ++ t) e2
        ∙ read_on (utf8 (code c)) (bytes_of (codes s)) (unquote plain t)
            (unquote-quote_plus s t h.1))
    | inr e2 ↦ rw e2 (
        ap (λ (l : List ℕ). unquote plain l)
          (codes-append_to (percents (utf8 (code c))) (quote_plus s) t)
        ∙ unquote-percents (utf8 (code c)) (codes (quote_plus s) ++ t) (utf8_bytes (code c) h.0)
        ∙ read_on (utf8 (code c)) (bytes_of (codes s)) (unquote plain t)
            (unquote-quote_plus s t h.1))
  ])
]
