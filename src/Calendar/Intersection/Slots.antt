-- ===== src/Calendar/Intersection/Slots.antt =====
-- One candidate: the tests of the code against what they mean.
use hound_bot.Base.{
  ◌≤◌, ◌<◌, ◌≡◌, ◌⊎◌, String, Bool, true, false, Option, none, some, List, [], ◌∷◌, arith, All,
  refl,
}
use hound_bot.Time.{DateTime}
use hound_bot.Exec.{Result, ok, err, BusyBlock, LocalTime}
use hound_bot.Calendar.Intersection.{
  hours_test, overlaps_any, and_then, zone_of, fits, fits_everyone,
}

-- Monday to Friday, from 9:00 until 17:00 on the clock of the zone.
pub data AtWork (local : String → DateTime → Option LocalTime) (moment : DateTime) (tz : String)
    : Type 0 where
  at_work :
      (t : LocalTime)
      → local tz moment ≡ some t
      → t.weekday < 5
      → 9 ≤ t.hour
      → t.hour < 17
      → AtWork local moment tz

-- No busy block has a moment in common with the slot.
abbrev pub IsFree : DateTime → DateTime → List BusyBlock → Type 0
IsFree start stop = All (λ b. (b.end_utc ≤ start) ⊎ (stop ≤ b.start_utc))

overlaps_any-IsFree :
    (start stop : DateTime) (blocks : List BusyBlock)
    → overlaps_any start stop blocks ≡ false
    → IsFree start stop blocks
unfolding overlaps_any
overlaps_any-IsFree start stop [] h = tt
overlaps_any-IsFree start stop (b ∷ bs) h = ground (arith, overlaps_any-IsFree start stop bs)

IsFree-overlaps_any :
    (start stop : DateTime) (blocks : List BusyBlock)
    → IsFree start stop blocks
    → overlaps_any start stop blocks ≡ false
unfolding overlaps_any
IsFree-overlaps_any start stop [] h = refl
IsFree-overlaps_any start stop (b ∷ bs) h = ground (arith, IsFree-overlaps_any start stop bs h.1)

and_then-true : (a b : Result Bool) → and_then a b ≡ ok true → (a ≡ ok true) × (b ≡ ok true)
and_then-true (ok true) b h = (refl, h)
and_then-true (ok false) b h = cc
and_then-true (err e) b h = cc

module _ (local : String → DateTime → Option LocalTime) where
  hours_test-AtWork :
      (moment : DateTime) (tz : String) (o : Option LocalTime)
      → local tz moment ≡ o
      → hours_test o ≡ ok true
      → AtWork local moment tz
  hours_test-AtWork moment tz none e h = cc
  hours_test-AtWork moment tz (some t) e h =
      at_work t e (ground arith) (ground arith) (ground arith)

  AtWork-hours_test :
      (moment : DateTime) (tz : String)
      → AtWork local moment tz
      → hours_test (local tz moment) ≡ ok true
  AtWork-hours_test moment tz (at_work t e a b c) = rw e (ground arith)

  -- A participant is at work when the slot begins and in its last minute, and free all through it.
  pub data Suits (start stop last : DateTime) (busy : List BusyBlock) (zone : Option String)
      : Type 0 where
    suits :
        (tz : String)
        → zone ≡ some tz
        → AtWork local start tz
        → AtWork local last tz
        → IsFree start stop busy
        → Suits start stop last busy zone

  fits-Suits :
      (start stop last : DateTime) (busy : List BusyBlock) (zone : Option String)
      → fits local start stop last busy zone ≡ ok true
      → Suits start stop last busy zone
  unfolding fits
  fits-Suits start stop last busy none h = cc
  fits-Suits start stop last busy (some tz) h =
      suits tz refl (hours_test-AtWork start tz (local tz start) refl (ground arith))
        (hours_test-AtWork last tz (local tz last) refl (ground arith))
        (overlaps_any-IsFree start stop busy (ground arith))

  Suits-fits :
      (start stop last : DateTime) (busy : List BusyBlock) (zone : Option String)
      → Suits start stop last busy zone
      → fits local start stop last busy zone ≡ ok true
  unfolding fits
  Suits-fits start stop last busy tz? (suits tz e a b c) =
      rw (e, AtWork-hours_test start tz a, AtWork-hours_test last tz b)
        (rw (IsFree-overlaps_any start stop busy c))

  module _ (zones : List (String × String)) where
    abbrev pub SuitsAll : DateTime → DateTime → DateTime → List (String × List BusyBlock) → Type 0
    SuitsAll start stop last = All (λ p. Suits start stop last p.1 (zone_of p.0 zones))

    pub fits_everyone-SuitsAll :
        (start stop last : DateTime) (busy : List (String × List BusyBlock))
        → fits_everyone local zones start stop last busy ≡ ok true
        → SuitsAll start stop last busy
    unfolding fits_everyone
    fits_everyone-SuitsAll start stop last [] h = tt
    fits_everyone-SuitsAll start stop last ((p, b) ∷ rest) h =
        let parts = and_then-true _ _ h in
        (
          fits-Suits start stop last b (zone_of p zones) parts.0,
          fits_everyone-SuitsAll start stop last rest parts.1,
        )

    pub SuitsAll-fits_everyone :
        (start stop last : DateTime) (busy : List (String × List BusyBlock))
        → SuitsAll start stop last busy
        → fits_everyone local zones start stop last busy ≡ ok true
    unfolding fits_everyone
    SuitsAll-fits_everyone start stop last [] h = refl
    SuitsAll-fits_everyone start stop last ((p, b) ∷ rest) h =
        rw (Suits-fits start stop last b (zone_of p zones) h.0)
          (SuitsAll-fits_everyone start stop last rest h.1)
