-- ===== src/LocationPanel.antt =====
-- src/modules/date-time/linux-date-time-location.c, and the part of linux-date-time-panel.c that decides
-- about the place: the state without the widgets. A status is the message that a handler shows.
pub mod Commit
pub mod Keys
pub mod Placed
pub mod Begun
pub mod Placing
pub mod Locks
pub mod Authority
pub mod Construction
pub mod Retries
pub mod RetriesBegun
pub mod Healing
pub mod Reconcile
pub mod Keeping
use system_settings.DateTimeModel.Defs.{Model}
use system_settings.DateTimeModel.Updates.{model_policy}
use system_settings.LocationMetadata.Defs.{
  Metadata, MetadataSystem, ok, missing, invalid, io_error, committed, metadata_load,
}
use system_settings.LocationMetadata.Recovery.{coordinate_close}
use system_settings.Policy.{Policy}
use system_settings.Prelude.{
  ℕ, ◌-◌, Bool, false, true, ◌&&◌, ◌||◌, not, Option, none, some, [], Bytes, Double, is_some, take,
  if◌then◌else◌,
}

-- `SsLinuxDateTimeLocationState`: `commit_pending` and `recovery_pending` are whether the timers run.
pub record LocationState (D : Type 0) : Type 0 where
  pub metadata : Metadata D
  pub metadata_present : Bool
  pub metadata_uncertain : Bool
  pub follows_timezone_reference : Bool
  pub commit_pending : Bool
  pub recovery_pending : Bool
  pub recovery_failed : Bool
  pub recovery_retry_seconds : ℕ
  pub updating_controls : Bool

-- The reference coordinates of `SsRegionalContext`, if it has some.
pub record Reference (D : Type 0) : Type 0 where
  pub latitude : D
  pub longitude : D

-- `SsRegionalContext`, the part that decides about the place
pub record Regional (D : Type 0) : Type 0 where
  pub timezone_id : Bytes
  pub reference : Option (Reference D)

pub record Panel (D W : Type 0) : Type 0 where
  pub model : Model D W
  pub location : LocationState D
  pub regional : Regional D

-- `g_strlcpy` into an array of that size
abbrev pub strlcpy : ℕ → Bytes → Bytes
strlcpy size text = take (size - 1) text

module _ {D : Type 0} (f : Double D) where
  -- `memset` to 0
  abbrev pub no_metadata : Metadata D
  no_metadata = record {
    display_name = [];
    country_code = [];
    timezone_id = [];
    latitude = f.nought;
    longitude = f.nought;
  }

  -- what is known of the committed record: the state behind a successful reading of it
  abbrev pub with_known : {W : Type 0} → Option (Metadata D) → Panel D W → Panel D W
  with_known none p = record p {
    location = record (p.location) { metadata = no_metadata; metadata_present = false };
  }
  with_known (some v) p = record p {
    location = record (p.location) { metadata = v; metadata_present = true };
  }

  unfoldable pub metadata_matches_policy : {W : Type 0} → Panel D W → Option (Policy D) → Bool
  metadata_matches_policy p none = false
  metadata_matches_policy p (some q) =
      q.location_configured
      && p.location.metadata_present
      && coordinate_close f q.latitude p.location.metadata.latitude
      && coordinate_close f q.longitude p.location.metadata.longitude

  unfoldable pub policy_matches_reference : {W : Type 0} → Panel D W → Bool
  policy_matches_reference p = elim p.regional.reference [
    | none ↦ false
    | some r ↦ elim (model_policy p.model) [
      | none ↦ false
      | some q ↦
          q.location_configured
          && coordinate_close f q.latitude r.latitude
          && coordinate_close f q.longitude r.longitude
    ]
  ]

  -- `refresh_location_authority_state`
  unfoldable pub refresh_location_authority_state : {W : Type 0} → Panel D W → Panel D W
  unfolding metadata_matches_policy policy_matches_reference
  refresh_location_authority_state p =
      let unplaced : Bool = elim (model_policy p.model) [
        | none ↦ true
        | some q ↦ not q.location_configured
      ] in
      let follows =
        not (metadata_matches_policy p (model_policy p.model))
        && (unplaced || policy_matches_reference p) in
      record p {
        location = record (p.location) {
          follows_timezone_reference = if p.location.metadata_uncertain then false else follows;
        };
      }

module _ {D W : Type 0} (f : Double D) (sys : MetadataSystem D W) where
  -- `load_authoritative_location_metadata`: `none` for false, else what is present
  unfoldable pub load_authoritative : W → Option (Option (Metadata D))
  load_authoritative w = elim (metadata_load f sys committed w) [
    | ok v ↦ some (some v)
    | missing ↦ some none
    | invalid ↦ none
    | io_error ↦ none
  ]

-- `ss_linux_date_time_location_cancel_coordinate_commit`
abbrev pub cancel_coordinate_commit : {D W : Type 0} → Panel D W → Panel D W
cancel_coordinate_commit p = record p { location = record (p.location) { commit_pending = false } }

-- `on_location_coordinate_changed`
unfoldable pub on_location_coordinate_changed : {D W : Type 0} → Panel D W → Panel D W
on_location_coordinate_changed p =
    if p.location.updating_controls
    then p
    else record p { location = record (p.location) { commit_pending = true } }
