-- ===== src/Tests/Command.antt =====
-- A command that asks for seconds and a place. A number is read as its first byte.
use system_settings.DateTimeModel.Edits.{
  draft_set_show_seconds, draft_set_location, draft_assign, assign_location, assign_show_seconds,
  valid_location,
}
use system_settings.Prelude.{
  ℕ, true, false, Option, none, some, List, [], ◌∷◌, Bytes, codes, equal, ◌≡◌, refl,
}
use system_settings.SettingsCommand.Agreement.{Outcome, no_request, untouched, options-Agrees}
use system_settings.SettingsCommand.Options.{
  Staged, options, value_option, seconds_option, location_option, flag_option,
}
use system_settings.Tests.Memory.{degrees, defaults, catalogue}

abbrev pub first_byte : Bytes → ℕ → ℕ → Option ℕ
first_byte [] low high = none
first_byte (x ∷ rest) low high = some x

abbrev nothing_staged : Staged ℕ
nothing_staged = record {
  draft = some defaults;
  change_requested = false;
  clear_requested = false;
  candidate = none;
}

abbrev pub arguments : List Bytes
arguments = codes "--seconds" ∷ codes "on" ∷ codes "--location" ∷ codes "d" ∷ codes "z" ∷ []

abbrev all_staged : Staged ℕ
all_staged = record {
  draft = some (record defaults {
    show_seconds = true;
    location_configured = true;
    latitude = 100;
    longitude = 122;
  });
  change_requested = true;
  clear_requested = false;
  candidate = some (record {
    display_name = codes "Custom coordinates";
    country_code = [];
    timezone_id = [];
    latitude = 100;
    longitude = 122;
  });
}

stages : options catalogue degrees first_byte nothing_staged arguments ≡ some all_staged
unfolding options value_option seconds_option location_option flag_option draft_set_show_seconds
    draft_set_location draft_assign assign_location assign_show_seconds valid_location equal
stages = refl

options-Agrees_example :
    Outcome catalogue degrees first_byte defaults no_request arguments all_staged
options-Agrees_example =
    options-Agrees catalogue degrees first_byte defaults no_request nothing_staged arguments
      all_staged (untouched defaults refl refl (refl, refl, refl)) stages
