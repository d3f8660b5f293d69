-- ===== src/DateTimeModel/Edits.antt =====
-- The validation of arguments, the assignments, the setters of the model and of a draft.
use system_settings.DateTimeModel.Defs.{Model, commit_to}
use system_settings.Policy.{Policy, Common}
use system_settings.Prelude.{
  Bool, false, true, ◌&&◌, Option, none, some, Bytes, Double, if◌then◌else◌,
}

module _ {D : Type 0} (c : Common D) where
  unfoldable pub valid_clock_mode : Option Bytes → Option Bytes
  valid_clock_mode none = none
  valid_clock_mode (some mode) = c.clock_mode_find mode

  unfoldable pub valid_calendar : Option Bytes → Bool
  valid_calendar id = c.id_valid id

  unfoldable pub assign_clock_mode : Bytes → Policy D → Policy D
  assign_clock_mode id p = record p { clock_mode = c.copy_string c.clock_mode_size (some id) }

  unfoldable pub assign_calendar : Option Bytes → Policy D → Policy D
  assign_calendar id p = record p { calendar = c.copy_string c.calendar_size id }

module _ {D : Type 0} (f : Double D) where
  unfoldable pub valid_location : D → D → Bool
  valid_location latitude longitude =
      f.finite latitude
      && f.finite longitude
      && f.le f.minus_90 latitude
      && f.le latitude f.plus_90
      && f.le f.minus_180 longitude
      && f.le longitude f.plus_180

unfoldable pub assign_location : {D : Type 0} → Bool → D → D → Policy D → Policy D
assign_location configured latitude longitude p = record p {
  location_configured = configured;
  latitude = latitude;
  longitude = longitude;
}

unfoldable pub assign_show_seconds : {D : Type 0} → Bool → Policy D → Policy D
assign_show_seconds show p = record p { show_seconds = show }

-- A request for one change, and the change that it stands for if its arguments are valid.
pub data Edit (D : Type 0) : Type 0 where
  clock : Option Bytes → Edit D
  calendar : Option Bytes → Edit D
  seconds : Bool → Edit D
  location : Bool → D → D → Edit D

module _ {D W : Type 0} (c : Common D) (f : Double D) where
  unfoldable pub set_clock_mode : Option Bytes → Model D W → W → Model D W × W × Bool
  set_clock_mode mode m w = elim (valid_clock_mode c mode) [
    | none ↦ (m, w, false)
    | some id ↦ commit_to (assign_clock_mode c id) m w
  ]

  unfoldable pub set_calendar : Option Bytes → Model D W → W → Model D W × W × Bool
  set_calendar id m w =
      if valid_calendar c id then commit_to (assign_calendar c id) m w else (m, w, false)

  unfoldable pub set_show_seconds : Bool → Model D W → W → Model D W × W × Bool
  set_show_seconds show m w = commit_to (assign_show_seconds show) m w

  unfoldable pub set_location : Bool → D → D → Model D W → W → Model D W × W × Bool
  set_location configured latitude longitude m w =
      if valid_location f latitude longitude
      then commit_to (assign_location configured latitude longitude) m w
      else (m, w, false)

  -- The setter that a request calls.
  unfoldable pub set_edit : Edit D → Model D W → W → Model D W × W × Bool
  set_edit (clock mode) = set_clock_mode mode
  set_edit (calendar id) = set_calendar id
  set_edit (seconds show) = set_show_seconds show
  set_edit (location configured latitude longitude) = set_location configured latitude longitude

-- `SsDateTimePolicyDraft *`: `none` is NULL.
abbrev pub Draft : Type 0 → Type 0
Draft D = Option (Policy D)

-- `allocated` says whether `calloc` gave memory.
unfoldable pub draft_new : {D : Type 0} → Bool → Option (Policy D) → Draft D
draft_new allocated none = none
draft_new allocated (some base) = if allocated then some base else none

unfoldable pub draft_policy : {D : Type 0} → Draft D → Option (Policy D)
draft_policy draft = draft

-- The assignment to a draft, refused for NULL.
unfoldable pub draft_assign : {D : Type 0} → (Policy D → Policy D) → Draft D → Draft D × Bool
draft_assign change none = (none, false)
draft_assign change (some p) = (some (change p), true)

module _ {D : Type 0} (c : Common D) (f : Double D) where
  unfoldable pub draft_set_clock_mode : Option Bytes → Draft D → Draft D × Bool
  draft_set_clock_mode mode draft = elim (valid_clock_mode c mode) [
    | none ↦ (draft, false)
    | some id ↦ draft_assign (assign_clock_mode c id) draft
  ]

  unfoldable pub draft_set_calendar : Option Bytes → Draft D → Draft D × Bool
  draft_set_calendar id draft =
      if valid_calendar c id then draft_assign (assign_calendar c id) draft else (draft, false)

  unfoldable pub draft_set_show_seconds : Bool → Draft D → Draft D × Bool
  draft_set_show_seconds show draft = draft_assign (assign_show_seconds show) draft

  unfoldable pub draft_set_location : Bool → D → D → Draft D → Draft D × Bool
  draft_set_location configured latitude longitude draft =
      if valid_location f latitude longitude
      then draft_assign (assign_location configured latitude longitude) draft
      else (draft, false)

  -- The draft setter that a request calls.
  unfoldable pub draft_edit : Edit D → Draft D → Draft D × Bool
  draft_edit (clock mode) = draft_set_clock_mode mode
  draft_edit (calendar id) = draft_set_calendar id
  draft_edit (seconds show) = draft_set_show_seconds show
  draft_edit (location configured latitude longitude) =
      draft_set_location configured latitude longitude

  -- What a request means: the change to a policy, or `none` if an argument is invalid.
  unfoldable pub edit_change : Edit D → Option (Policy D → Policy D)
  edit_change (clock mode) = elim (valid_clock_mode c mode) [
    | none ↦ none
    | some id ↦ some (assign_clock_mode c id)
  ]
  edit_change (calendar id) = if valid_calendar c id then some (assign_calendar c id) else none
  edit_change (seconds show) = some (assign_show_seconds show)
  edit_change (location configured latitude longitude) =
      if valid_location f latitude longitude
      then some (assign_location configured latitude longitude)
      else none
