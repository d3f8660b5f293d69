-- ===== src/SettingsCommand/Options.antt =====
-- The options, staged on a draft. A draft is never NULL once it was made.
use system_settings.DateTimeModel.Edits.{
  draft_set_clock_mode, draft_set_calendar, draft_set_show_seconds, draft_set_location, Draft,
}
use system_settings.LocationMetadata.Defs.{Metadata}
use system_settings.Policy.{Common}
use system_settings.Prelude.{
  Bool, false, true, ◌||◌, Option, none, some, List, [], ◌∷◌, Bytes, codes, equal, Double,
  if◌then◌else◌,
}

-- the variables of `main` that the loop sets; `candidate` is `location_candidate` once it is filled
pub record Staged (D : Type 0) : Type 0 where
  pub draft : Draft D
  pub change_requested : Bool
  pub clear_requested : Bool
  pub candidate : Option (Metadata D)

unfoldable pub command_touches_location : List Bytes → Bool
command_touches_location [] = false
command_touches_location (a ∷ rest) =
    equal a (codes "--location")
    || equal a (codes "--clear-location")
    || command_touches_location rest

-- the draft after a setter, if it accepted
abbrev pub accepted : {D : Type 0} → Staged D → Draft D × Bool → Option (Staged D)
accepted s (draft, true) = some (record s { draft = draft })
accepted s (draft, false) = none

-- `infiltratr_parse_double_range` with its text and its bounds is a parameter.
module _ {D : Type 0} (c : Common D) (f : Double D)
    (parse_double_range : Bytes → D → D → Option D) where
  -- "on" or "off"
  unfoldable pub seconds_option : Staged D → Bytes → Option (Staged D)
  seconds_option s value =
      if equal value (codes "on")
      then accepted s (draft_set_show_seconds c f true s.draft)
      else if equal value (codes "off")
      then accepted s (draft_set_show_seconds c f false s.draft)
      else none

  -- an option with one value
  unfoldable pub value_option : Staged D → Bytes → Bytes → Option (Staged D)
  unfolding seconds_option
  value_option s name value =
      if equal name (codes "--clock")
      then accepted s (draft_set_clock_mode c f (some value) s.draft)
      else if equal name (codes "--calendar")
      then accepted s (draft_set_calendar c f (some value) s.draft)
      else seconds_option s value

  abbrev pub takes_value : Bytes → Bool
  takes_value name =
      equal name (codes "--clock")
      || equal name (codes "--calendar")
      || equal name (codes "--seconds")

  unfoldable pub location_option : Staged D → Bytes → Bytes → Option (Staged D)
  location_option s latitude_text longitude_text =
      elim (parse_double_range latitude_text f.minus_90 f.plus_90) [
        | none ↦ none
        | some latitude ↦ elim (parse_double_range longitude_text f.minus_180 f.plus_180) [
          | none ↦ none
          | some longitude ↦
              let place : Metadata D = record {
                display_name = codes "Custom coordinates";
                country_code = [];
                timezone_id = [];
                latitude = latitude;
                longitude = longitude;
              } in
              let placed : Staged D = record s {
                change_requested = true;
                clear_requested = false;
                candidate = some place;
              } in
              accepted placed (draft_set_location c f true latitude longitude s.draft)
        ]
      ]

  -- an option without a value
  unfoldable pub flag_option : Staged D → Bytes → Option (Staged D)
  flag_option s name = elim s.draft [
    | none ↦ none
    | some p ↦
        let cleared : Staged D = record s { change_requested = true; clear_requested = true } in
        if equal name (codes "--clear-location")
        then accepted cleared (draft_set_location c f false p.latitude p.longitude (some p))
        else none
  ]

  -- The loop over `argv`; `none` ends it with exit code 2.
  unfoldable pub options : Staged D → List Bytes → Option (Staged D)
  unfolding value_option location_option flag_option
  options s [] = some s
  options s (a ∷ []) = flag_option s a
  options s (a ∷ v ∷ []) =
      let flagged = elim (flag_option s a) as (λ x. Option (Staged D)) [
        | none ↦ none
        | some t ↦ options t (v ∷ [])
      ] in
      if takes_value a then value_option s a v else flagged
  options s (a ∷ v ∷ u ∷ rest) =
      let valued = elim (value_option s a v) as (λ x. Option (Staged D)) [
        | none ↦ none
        | some t ↦ options t (u ∷ rest)
      ] in
      let placed = elim (location_option s v u) as (λ x. Option (Staged D)) [
        | none ↦ none
        | some t ↦ options t rest
      ] in
      let flagged = elim (flag_option s a) as (λ x. Option (Staged D)) [
        | none ↦ none
        | some t ↦ options t (v ∷ u ∷ rest)
      ] in
      if takes_value a then valued else if equal a (codes "--location") then placed else flagged
