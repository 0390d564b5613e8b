-- ===== src/Services/Meetings/Roster.antt =====
-- The participants of a proposal: app/services/meeting_service.py, `dict.fromkeys`.
use hound_bot.Base.{
  ◌≡◌, refl, ◌∙◌, ap, String, Bool, true, false, ◌||◌, Option, none, some, List, [], ◌∷◌, ◌++◌,
  contains, ◌==◌, ==_sound, string_eq, Bool-cases, inl, inr, arith,
}
use hound_bot.Services.Meetings.Propose.{from_keys, dedupe}

abbrev Distinct : List String → Type 0
Distinct [] = Unit
Distinct (x ∷ xs) = (contains xs x ≡ false) × Distinct xs

abbrev first : List String → Option String
first [] = none
first (x ∷ xs) = some x

-- Each of the organiser and the participants once, no one else, and the organiser first.
abbrev pub IsRoster : String → List String → List String → Type 0
IsRoster organiser participants everyone =
    Distinct everyone
    × ((x : String) → contains everyone x ≡ contains (organiser ∷ participants) x)
    × (first everyone ≡ some organiser)

contains-append :
    (xs : List String) (x y : String) → contains (xs ++ x ∷ []) y ≡ contains xs y || y == x
contains-append [] x y = ground arith
contains-append (z ∷ xs) x y = ground (arith, contains-append xs x y)

==-false : (x y : String) → x == y ≡ false → y == x ≡ false
==-false x y h = ground arith

Distinct-append :
    (xs : List String) (x : String) → Distinct xs → contains xs x ≡ false → Distinct (xs ++ x ∷ [])
Distinct-append [] x d h = (refl, _)
Distinct-append (y ∷ ys) x d h = (
  contains-append ys x y ∙ ground (arith, d.0, ==-false x y),
  Distinct-append ys x d.1 (ground arith),
)

Distinct-from_keys : (acc xs : List String) → Distinct acc → Distinct (from_keys acc xs)
Distinct-from_keys acc [] d = d
Distinct-from_keys acc (x ∷ xs) d = elim (Bool-cases (contains acc x)) [
  | inl e ↦ rw e (Distinct-from_keys acc xs d)
  | inr e ↦ rw e (Distinct-from_keys (acc ++ x ∷ []) xs (Distinct-append acc x d e))
]

seen :
    (acc : List String) (x y : String) (c : Bool)
    → contains acc x ≡ true
    → contains acc y || c ≡ contains acc y || (y == x || c)
seen acc x y c h = elim (Bool-cases (y == x)) [
  | inl e ↦ rw (ap (λ (z : String). contains acc z) (==_sound y x e) ∙ h) refl
  | inr e ↦ rw e refl
]

contains-from_keys :
    (acc xs : List String) (y : String)
    → contains (from_keys acc xs) y ≡ contains acc y || contains xs y
contains-from_keys acc [] y = ground arith
contains-from_keys acc (x ∷ xs) y = elim (Bool-cases (contains acc x)) [
  | inl e ↦ rw e (contains-from_keys acc xs y ∙ seen acc x y (contains xs y) e)
  | inr e ↦ rw e (contains-from_keys (acc ++ x ∷ []) xs y ∙ ground (arith, contains-append acc x y))
]

first-from_keys : (o : String) (acc xs : List String) → first (from_keys (o ∷ acc) xs) ≡ some o
first-from_keys o acc [] = refl
first-from_keys o acc (x ∷ xs) = elim (Bool-cases (contains (o ∷ acc) x)) [
  | inl e ↦ rw e (first-from_keys o acc xs)
  | inr e ↦ rw e (first-from_keys o (acc ++ x ∷ []) xs)
]

pub dedupe-IsRoster :
    (organiser : String) (participants : List String)
    → IsRoster organiser participants (dedupe (organiser ∷ participants))
dedupe-IsRoster organiser participants = (
  Distinct-from_keys [] (organiser ∷ participants) _,
  contains-from_keys [] (organiser ∷ participants),
  first-from_keys organiser [] participants,
)
