-- ===== src/Tests/Zones.antt =====
-- Coordinates as they stand in zone.tab.
use system_settings.Prelude.{
  ℕ, ◌+◌, ◌*◌, ◌/◌, ◌==◌, if◌then◌else◌, true, false, some, ◌++◌, codes, ◌≡◌, inl, refl, arith,
}
use system_settings.RegionalContext.RoundTrip.{
  Angle, in_degrees, IsAngle, written_latitude, written_longitude, parse_zone_coordinate-written,
}
use system_settings.RegionalContext.{
  Arithmetic, parse_zone_coordinate, parse_component, split_sign, number, all_digits,
}

-- Numbers of seconds, with 1000000 for a minus in front.
abbrev seconds : Arithmetic ℕ
seconds = record {
  of_unsigned = λ n. n * 3600;
  minus_one = 1000000;
  add = λ x y. x + y;
  multiply = λ x y. if x == 1000000 then x + y else y;
  divide = λ x y. x / (y / 3600);
}

abbrev south : Angle
south = record { negative = true; degrees = 25; minutes = 44; seconds = 30 }

abbrev east : Angle
east = record { negative = false; degrees = 28; minutes = 11; seconds = 0 }

south-IsAngle : IsAngle 90 south
south-IsAngle = record {
  minutes_fit = omega arith;
  seconds_fit = omega arith;
  within = inl (omega arith);
}

east-IsAngle : IsAngle 180 east
east-IsAngle = record {
  minutes_fit = omega arith;
  seconds_fit = omega arith;
  within = inl (omega arith);
}

reads : parse_zone_coordinate seconds (codes "-254430+02811") ≡ some (1092670, 101460)
unfolding parse_zone_coordinate parse_component split_sign number all_digits
reads = refl

parse_zone_coordinate-written_example :
    parse_zone_coordinate seconds (written_latitude south ++ written_longitude east)
    ≡ some (in_degrees seconds south, in_degrees seconds east)
parse_zone_coordinate-written_example =
    parse_zone_coordinate-written seconds south east south-IsAngle east-IsAngle
