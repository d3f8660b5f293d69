-- ===== src/ManualTime.antt =====
-- src/modules/date-time/manual-time.c: reading a wall-clock time that the user typed. A cursor is the
-- text that is left; a parser that returns false is `none`, and its output stays unwritten.
-- `infiltratr_ascii_equal_ci` belongs to Common and is the parameter `equal_ci`.
pub mod Grammar
pub mod Scan
pub mod Laws
pub mod Modes
use system_settings.NativeClock.{
  ClockProfile, conventional_12, conventional_24, decimal_10, native_clock_mode_profile,
}
use system_settings.Prelude.{
  ℕ, zero, suc, ◌+◌, ◌-◌, ◌*◌, ◌%◌, Bool, false, true, ◌&&◌, ◌||◌, not, Option, none, some, List,
  [], ◌∷◌, Bytes, codes, equal, is_empty, is_some, if◌then◌else◌, ltb, leb, ◌==◌,
}

abbrev pub us_per_second : ℕ
us_per_second = 1000000

abbrev pub us_per_day : ℕ
us_per_day = 86400000000

infixl 5 ◌>>=◌
abbrev pub ◌>>=◌ {ℓ κ} : {A : Type ℓ} {B : Type κ} → Option A → (A → Option B) → Option B
none >>= f = none
some a >>= f = f a

unfoldable pub profile_for_mode : Option Bytes → Bool → Option ClockProfile
profile_for_mode none desktop_use_24h = none
profile_for_mode (some mode) desktop_use_24h =
    elim (native_clock_mode_profile (some mode) desktop_use_24h) [
      | some profile ↦ some profile
      | none ↦ if equal mode (codes "decimal") then some decimal_10 else none
    ]

unfoldable pub mode_supported : Option Bytes → Bool
mode_supported mode = is_some (profile_for_mode mode true)

abbrev pub is_digit : ℕ → Bool
is_digit c = leb b'0' c && leb c b'9'

-- `*p` is a digit, where the end of the text is the terminator
abbrev pub at_digit : Bytes → Bool
at_digit [] = false
at_digit (c ∷ p) = is_digit c

-- the loop: the first argument is `2 - digits`
pub scan_digits : ℕ → ℕ → ℕ → Bytes → ℕ × ℕ × Bytes
scan_digits zero number digits p = (number, digits, p)
scan_digits (suc left) number digits [] = (number, digits, [])
scan_digits (suc left) number digits (c ∷ p) =
    let rest = scan_digits left (number * 10 + (c - b'0')) (digits + 1) p in
    if is_digit c then rest else (number, digits, c ∷ p)

unfoldable pub parse_field : Bytes → Option (ℕ × Bytes)
unfolding scan_digits
parse_field cursor =
    let (number, digits, p) = scan_digits 2 0 0 cursor in
    if digits == 0 || at_digit p then none else some (number, p)

pub record Fields : Type 0 where
  pub hour : ℕ
  pub minute : ℕ
  pub second : ℕ
  -- the cursor behind the last field
  pub rest : Bytes

-- `**cursor == ':'`, and the cursor behind it
abbrev pub skip_colon : Bytes → Option Bytes
skip_colon [] = none
skip_colon (c ∷ p) = if c == b':' then some p else none

-- the optional `:S` behind hour and minute
unfoldable pub parse_second : ℕ → ℕ → Bytes → Option Fields
parse_second hour minute cursor = elim (skip_colon cursor) [
  | none ↦ some (record { hour = hour; minute = minute; second = 0; rest = cursor })
  | some p ↦ parse_field p >>= λ s.
      some (record { hour = hour; minute = minute; second = s.0; rest = s.1 })
]

unfoldable pub parse_fields : Bytes → Option Fields
unfolding parse_second
parse_fields cursor = do
  h ← parse_field cursor
  p ← skip_colon h.1
  m ← parse_field p
  parse_second h.0 m.0 m.1

unfoldable pub parse_24_hour : Bytes → Option ℕ
parse_24_hour text = do
  f ← parse_fields text
  if not (is_empty f.rest) || ltb 23 f.hour || ltb 59 f.minute || ltb 59 f.second
      then none
      else some ((f.hour * 3600 + f.minute * 60 + f.second) * us_per_second)

-- the loop over spaces and tabs
unfoldable pub skip_blanks : Bytes → Bytes
skip_blanks [] = []
skip_blanks (c ∷ p) = let rest = skip_blanks p in if c == b' ' || c == b'\t' then rest else c ∷ p

unfoldable pub parse_decimal : Bytes → Option ℕ
parse_decimal text = do
  f ← parse_fields text
  if not (is_empty f.rest) || ltb 9 f.hour
      then none
      else let us = (f.hour * 10000 + f.minute * 100 + f.second) * 864000 in
        if ltb us us_per_day then some us else none

module _ (equal_ci : Bytes → Bytes → Bool) where
  unfoldable pub parse_12_hour : Bytes → Option ℕ
  parse_12_hour text = do
    f ← parse_fields text
    if ltb f.hour 1 || ltb 12 f.hour || ltb 59 f.minute || ltb 59 f.second
        then none
        else let suffix = skip_blanks f.rest in
          if not (equal_ci suffix (codes "AM")) && not (equal_ci suffix (codes "PM"))
          then none
          else let hour = if equal_ci suffix (codes "PM") then f.hour % 12 + 12 else f.hour % 12 in
            some ((hour * 3600 + f.minute * 60 + f.second) * us_per_second)

  unfoldable pub parse_for : ClockProfile → Bytes → Option ℕ
  unfolding parse_12_hour
  parse_for conventional_12 text = parse_12_hour text
  parse_for conventional_24 text = parse_24_hour text
  parse_for decimal_10 text = parse_decimal text
  parse_for _ text = none

  unfoldable pub manual_time_parse : Option Bytes → Bool → Option Bytes → Option ℕ
  unfolding parse_for
  manual_time_parse mode desktop_use_24h none = none
  manual_time_parse mode desktop_use_24h (some text) =
      profile_for_mode mode desktop_use_24h >>= λ profile. parse_for profile text
