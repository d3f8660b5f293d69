-- ===== src/RegionalContext/RoundTrip.antt =====
-- A coordinate that is written in the form of zone.tab is read back.
use system_settings.Prelude.{
  ℕ, Bool, ◌+◌, ◌-◌, ◌*◌, ◌/◌, ◌%◌, ◌<◌, true, false, Option, none, some, [], ◌∷◌, ◌++◌, Bytes,
  is_empty, if◌then◌else◌, ◌≡◌, ◌⊎◌, inl, inr, refl, ap, ◌∙◌, arith, Bool-cases,
}
use system_settings.RegionalContext.{
  Arithmetic, is_digit, is_sign, number, parse_component, split_sign, parse_zone_coordinate,
}

-- An angle in degrees, minutes and seconds.
pub record Angle : Type 0 where
  pub negative : Bool
  pub degrees : ℕ
  pub minutes : ℕ
  pub seconds : ℕ

-- The `double` of an angle: its sign times its degrees, with sixtieths and with 3600ths of one.
abbrev pub in_degrees : {D : Type 0} → Arithmetic D → Angle → D
in_degrees d a =
    let minutes = d.divide (d.of_unsigned a.minutes) (d.of_unsigned 60) in
    let seconds = d.divide (d.of_unsigned a.seconds) (d.of_unsigned 3600) in
    d.multiply (if a.negative then d.minus_one else d.of_unsigned 1)
      (d.add (d.add (d.of_unsigned a.degrees) minutes) seconds)

abbrev sign : Angle → ℕ
sign a = if a.negative then 45 else 43

abbrev two : ℕ → Bytes → Bytes
two n rest = (48 + n / 10) ∷ (48 + n % 10) ∷ rest

-- ±DDMMSS and ±DDDMMSS
abbrev pub written_latitude : Angle → Bytes
written_latitude a = sign a ∷ two a.degrees (two a.minutes (two a.seconds []))

abbrev pub written_longitude : Angle → Bytes
written_longitude a =
    sign a ∷ (48 + a.degrees / 100) ∷ two (a.degrees % 100) (two a.minutes (two a.seconds []))

-- An angle within the maximum, which only itself reaches.
pub record IsAngle (maximum : ℕ) (a : Angle) : Type 0 where
  pub minutes_fit : a.minutes < 60
  pub seconds_fit : a.seconds < 60
  pub within : (a.degrees < maximum) ⊎ ((a.degrees ≡ maximum) × (a.minutes ≡ 0) × (a.seconds ≡ 0))

tens : (n : ℕ) → n < 100 → is_digit (48 + n / 10) ≡ true
tens n less = ground arith

units : (n : ℕ) → is_digit (48 + n % 10) ≡ true
units n = ground arith

value : (n : ℕ) → n < 100 → (0 + (48 + n / 10 - 48)) * 10 + (48 + n % 10 - 48) ≡ n
value n less = omega arith

latitude-read :
    {D : Type 0} (d : Arithmetic D) (a : Angle)
    → IsAngle 90 a
    → parse_component d 2 90 (written_latitude a) ≡ some (in_degrees d a)
unfolding parse_component number
latitude-read d a h =
    let less : (a.degrees < 100) = ground (arith, h.within) in
    let less_m : (a.minutes < 100) = omega (arith, h.minutes_fit) in
    let less_s : (a.seconds < 100) = omega (arith, h.seconds_fit) in
    rw
      (
        value a.degrees less,
        value a.minutes less_m,
        value a.seconds less_s,
        tens a.degrees less,
        units a.degrees,
        tens a.minutes less_m,
        units a.minutes,
        tens a.seconds less_s,
        units a.seconds,
      )
      (elim (Bool-cases a.negative) [
        | inl y ↦ ground (arith, h.within, h.minutes_fit, h.seconds_fit)
        | inr n ↦ ground (arith, h.within, h.minutes_fit, h.seconds_fit)
      ])

value_three :
    (n : ℕ)
    → ((0 + (48 + n / 100 - 48)) * 10 + (48 + n % 100 / 10 - 48)) * 10 + (48 + n % 100 % 10 - 48)
      ≡ n
value_three n = omega arith

longitude-read :
    {D : Type 0} (d : Arithmetic D) (a : Angle)
    → IsAngle 180 a
    → parse_component d 3 180 (written_longitude a) ≡ some (in_degrees d a)
unfolding parse_component number
longitude-read d a h =
    let hundreds : (is_digit (48 + a.degrees / 100) ≡ true) = ground (arith, h.within) in
    let rest : (a.degrees % 100 < 100) = omega arith in
    let less_m : (a.minutes < 100) = omega (arith, h.minutes_fit) in
    let less_s : (a.seconds < 100) = omega (arith, h.seconds_fit) in
    rw
      (
        value_three a.degrees,
        value a.minutes less_m,
        value a.seconds less_s,
        hundreds,
        tens (a.degrees % 100) rest,
        units (a.degrees % 100),
        tens a.minutes less_m,
        units a.minutes,
        tens a.seconds less_s,
        units a.seconds,
      )
      (elim (Bool-cases a.negative) [
        | inl y ↦ ground (arith, h.within, h.minutes_fit, h.seconds_fit)
        | inr n ↦ ground (arith, h.within, h.minutes_fit, h.seconds_fit)
      ])

digit_unsigned : (x : ℕ) → is_sign (48 + x) ≡ false
digit_unsigned x = ground arith

sign_signed : (a : Angle) → is_sign (sign a) ≡ true
sign_signed a = ground arith

abbrev latitude_digits : Angle → Bytes
latitude_digits a = two a.degrees (two a.minutes (two a.seconds []))

split_written :
    (a b : Angle)
    → split_sign (latitude_digits a ++ written_longitude b)
      ≡ (latitude_digits a, written_longitude b)
unfolding split_sign
split_written a b =
    rw
      (
        digit_unsigned (a.degrees / 10),
        digit_unsigned (a.degrees % 10),
        digit_unsigned (a.minutes / 10),
        digit_unsigned (a.minutes % 10),
        digit_unsigned (a.seconds / 10),
        digit_unsigned (a.seconds % 10),
        sign_signed b,
      )
      refl

-- the reading behind the split
abbrev from_parts : {D : Type 0} → Arithmetic D → ℕ → Bytes × Bytes → Option (D × D)
from_parts d c parts =
    let longitude = parse_component d 3 180 parts.1 in
    if is_empty parts.1 then none else elim (parse_component d 2 90 (c ∷ parts.0)) [
      | none ↦ none
      | some latitude ↦ elim longitude [ none ↦ none | some x ↦ some (latitude, x) ]
    ]

parts-read :
    {D : Type 0} (d : Arithmetic D) (a b : Angle)
    → IsAngle 90 a
    → IsAngle 180 b
    → from_parts d (sign a) (latitude_digits a, written_longitude b)
      ≡ some (in_degrees d a, in_degrees d b)
parts-read d a b x y = rw (latitude-read d a x, longitude-read d b y) refl

-- A latitude and a longitude in their ranges that are written in the compact form of zone.tab, with
-- seconds, are read as the sums of their degrees, their minutes by 60 and their seconds by 3600, with
-- their signs, whatever the arithmetic.
pub parse_zone_coordinate-written :
    {D : Type 0} (d : Arithmetic D) (a b : Angle)
    → IsAngle 90 a
    → IsAngle 180 b
    → parse_zone_coordinate d (written_latitude a ++ written_longitude b)
      ≡ some (in_degrees d a, in_degrees d b)
unfolding parse_zone_coordinate
parse_zone_coordinate-written d a b x y =
    ap (from_parts d (sign a)) (split_written a b) ∙ parts-read d a b x y
