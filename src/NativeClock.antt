-- ===== src/NativeClock.antt =====
-- src/modules/date-time/native-clock-policy.c: which clock modes follow the desktop's own 12/24-hour
-- choice, and how often a presentation is redrawn. A `const char *` that may be NULL is an option.
use system_settings.Prelude.{
  ℕ, Bool, false, ◌||◌, not, Option, none, some, Bytes, codes, equal, if◌then◌else◌,
}

-- The values of `InfiltratrClockProfile` that the sources name, and all others.
pub data ClockProfile : Type 0 where
  conventional_12 conventional_24 decimal_10 : ClockProfile
  unlisted : ℕ → ClockProfile

abbrev pub standard : Bytes
standard = codes "standard"

abbrev pub standard_12 : Bytes
standard_12 = codes "standard-12"

abbrev pub standard_24 : Bytes
standard_24 = codes "standard-24"

unfoldable pub native_clock_mode_id : Bool → Bytes
native_clock_mode_id use_24h = if use_24h then standard_24 else standard_12

unfoldable pub native_clock_mode_profile : Option Bytes → Bool → Option ClockProfile
native_clock_mode_profile none desktop_use_24h = none
native_clock_mode_profile (some mode) desktop_use_24h =
    if equal mode standard
    then some (if desktop_use_24h then conventional_24 else conventional_12)
    else if equal mode standard_24
    then some conventional_24
    else if equal mode standard_12
    then some conventional_12
    else none

unfoldable pub is_legacy_default : Option Bytes → Bool
is_legacy_default none = false
is_legacy_default (some mode) = equal mode standard

unfoldable pub is_conventional : Option Bytes → Bool
is_conventional none = false
is_conventional (some mode) = equal mode standard_12 || equal mode standard_24

unfoldable pub tracks_desktop : Option Bytes → Bool
unfolding is_legacy_default is_conventional
tracks_desktop mode = is_legacy_default mode || is_conventional mode

unfoldable pub refresh_interval_ms : Option Bytes → Bool → ℕ
unfolding tracks_desktop
refresh_interval_ms mode show_seconds =
    if not show_seconds || tracks_desktop mode then 1000 else 500
