-- ===== src/Tests/ManualTime.antt =====
-- Clock modes and typed times, as in tests/manual-time-test.c and tests/native-clock-policy-test.c.
use system_settings.ManualTime.Laws.{
  Time24, Time10, Time12, parse_24_hour-exact, parse_decimal-exact, parse_12_hour-exact,
}
use system_settings.ManualTime.Modes.{profile-tracks_desktop, manual_time_parse-lt-day}
use system_settings.ManualTime.{
  parse_24_hour, parse_decimal, parse_12_hour, parse_field, parse_fields, skip_blanks,
  manual_time_parse, mode_supported, profile_for_mode, us_per_day,
}
use system_settings.NativeClock.{native_clock_mode_profile, tracks_desktop, standard, standard_12}
use system_settings.Prelude.{◌<◌, true, false, none, some, codes, equal, is_some, ◌≡◌, ◌↔◌, refl}

parses :
    (parse_24_hour (codes "13:45:09") ≡ some 49509000000)
    × (parse_24_hour (codes "24:00") ≡ none)
    × (parse_24_hour (codes "013:45") ≡ none)
    × (parse_24_hour (codes "13:45 ") ≡ none)
    × (parse_12_hour equal (codes "12:30 AM") ≡ some 1800000000)
    × (parse_12_hour equal (codes "12:30PM") ≡ some 45000000000)
    × (parse_12_hour equal (codes "0:30 AM") ≡ none)
    × (parse_decimal (codes "5:00") ≡ some 43200000000)
    × (parse_decimal (codes "10:00") ≡ none)
unfolding parse_24_hour parse_12_hour parse_decimal parse_fields parse_field skip_blanks equal
parses = (refl, refl, refl, refl, refl, refl, refl, refl, refl)

parse_24_hour-exact_example :
    (parse_24_hour (codes "13:45:09") ≡ some 49509000000) ↔ Time24 (codes "13:45:09") 49509000000
parse_24_hour-exact_example = parse_24_hour-exact (codes "13:45:09") 49509000000

parse_decimal-exact_example :
    (parse_decimal (codes "5:00") ≡ some 43200000000) ↔ Time10 (codes "5:00") 43200000000
parse_decimal-exact_example = parse_decimal-exact (codes "5:00") 43200000000

parse_12_hour-exact_example :
    (parse_12_hour equal (codes "12:30PM") ≡ some 45000000000)
    ↔ Time12 equal (codes "12:30PM") 45000000000
parse_12_hour-exact_example = parse_12_hour-exact equal (codes "12:30PM") 45000000000

noon : manual_time_parse equal (some standard) false (some (codes "12:00 PM")) ≡ some 43200000000
unfolding manual_time_parse profile_for_mode native_clock_mode_profile parse_12_hour parse_fields
    parse_field skip_blanks equal
noon = refl

manual_time_parse-lt-day_example :
    (43200000000 < us_per_day) × (mode_supported (some standard) ≡ true)
manual_time_parse-lt-day_example =
    manual_time_parse-lt-day equal (some standard) false (some (codes "12:00 PM")) noon

profile-tracks_desktop_example :
    is_some (native_clock_mode_profile (some standard_12) true) ≡ tracks_desktop (some standard_12)
profile-tracks_desktop_example = profile-tracks_desktop (some standard_12) true
