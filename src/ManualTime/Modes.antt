-- ===== src/ManualTime/Modes.antt =====
-- Which reading a clock mode selects, and what holds of every reading.
use system_settings.ManualTime.Laws.{
  parse_24_hour-exact, parse_12_hour-exact, parse_decimal-exact, IsTime-lt-100,
}
use system_settings.ManualTime.Scan.{bind-eq-some}
use system_settings.ManualTime.{
  parse_for, manual_time_parse, profile_for_mode, mode_supported, us_per_day,
}
use system_settings.NativeClock.{
  ClockProfile, conventional_12, conventional_24, decimal_10, unlisted, native_clock_mode_profile,
  native_clock_mode_id, tracks_desktop, refresh_interval_ms, standard, standard_12, standard_24,
}
use system_settings.Prelude.{
  ℕ, ◌<◌, Bool, false, true, Option, none, some, ◌≡◌, ◌↔◌, ◌⊎◌, refl, Bytes, codes, equal,
  equal_iff, is_some, arith,
}

-- A mode has a conventional profile exactly if it follows the desktop's choice.
pub profile-tracks_desktop :
    (mode : Option Bytes) (use_24h : Bool)
    → is_some (native_clock_mode_profile mode use_24h) ≡ tracks_desktop mode
unfolding native_clock_mode_profile tracks_desktop
profile-tracks_desktop none use_24h = refl
profile-tracks_desktop (some mode) use_24h = ground arith

-- The mode with which the desktop's choice is made explicit has, whatever the desktop then says, the
-- profile that the mode `standard` has under that choice.
pub profile-native_clock_mode_id :
    (use_24h later : Bool)
    → native_clock_mode_profile (some (native_clock_mode_id use_24h)) later
      ≡ native_clock_mode_profile (some standard) use_24h
unfolding native_clock_mode_profile native_clock_mode_id equal
profile-native_clock_mode_id true later = refl
profile-native_clock_mode_id false later = refl

-- The redraw interval is half a second exactly for extended clocks with visible seconds, and a second
-- for all others.
pub refresh_interval-cases :
    (mode : Option Bytes) (show_seconds use_24h : Bool)
    → ((refresh_interval_ms mode show_seconds ≡ 500)
        ↔ ((show_seconds ≡ true) × (native_clock_mode_profile mode use_24h ≡ none)))
      × ((refresh_interval_ms mode show_seconds ≡ 500)
          ⊎ (refresh_interval_ms mode show_seconds ≡ 1000))
unfolding refresh_interval_ms native_clock_mode_profile
refresh_interval-cases none show_seconds use_24h = ground arith
refresh_interval-cases (some mode) show_seconds use_24h = ground arith

-- The desktop's choice does not decide whether a mode is supported.
profile_for_mode-supported :
    (mode : Option Bytes) (use_24h : Bool) {p : ClockProfile}
    → profile_for_mode mode use_24h ≡ some p
    → mode_supported mode ≡ true
unfolding mode_supported profile_for_mode native_clock_mode_profile
profile_for_mode-supported none use_24h e = cc
profile_for_mode-supported (some mode) use_24h e = ground arith

module _ (equal_ci : Bytes → Bytes → Bool) where
  parse_for-lt-day :
      (p : ClockProfile) (text : Bytes) {us : ℕ}
      → parse_for equal_ci p text ≡ some us
      → us < us_per_day
  unfolding parse_for
  parse_for-lt-day conventional_12 text e =
      let t = (parse_12_hour-exact equal_ci text _).0 e in ground arith
  parse_for-lt-day conventional_24 text e = let t = (parse_24_hour-exact text _).0 e in omega arith
  parse_for-lt-day decimal_10 text e =
      let t = (parse_decimal-exact text _).0 e in omega (arith, IsTime-lt-100 t.1)
  parse_for-lt-day (unlisted n) text e = cc

  -- Every accepted time lies within the day, in every mode, and only a supported mode accepts any.
  pub manual_time_parse-lt-day :
      (mode : Option Bytes) (use_24h : Bool) (text : Option Bytes) {us : ℕ}
      → manual_time_parse equal_ci mode use_24h text ≡ some us
      → (us < us_per_day) × (mode_supported mode ≡ true)
  unfolding manual_time_parse
  manual_time_parse-lt-day mode use_24h none e = cc
  manual_time_parse-lt-day mode use_24h (some text) e =
      let (p, is_p, e') = bind-eq-some (profile_for_mode mode use_24h) _ e in
      (parse_for-lt-day p text e', profile_for_mode-supported mode use_24h is_p)

-- The supported modes are the three conventional ones and the decimal one, whatever the desktop says.
pub profile_for_mode_iff :
    (mode : Bytes) (use_24h : Bool)
    → (is_some (profile_for_mode (some mode) use_24h) ≡ true)
      ↔ ((mode ≡ standard) ⊎ (mode ≡ standard_24) ⊎ (mode ≡ standard_12) ⊎ (mode ≡ codes "decimal"))
unfolding profile_for_mode native_clock_mode_profile
profile_for_mode_iff mode use_24h = ground (
  arith,
  equal_iff mode standard,
  equal_iff mode standard_24,
  equal_iff mode standard_12,
  equal_iff mode (codes "decimal"),
)
