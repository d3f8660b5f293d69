-- ===== src/LocationPanel/Reconcile.antt =====
-- src/modules/date-time/linux-date-time-panel.c, ss_linux_date_time_panel_reconcile_system_time_change: what
-- the panel makes of a change of the system's time zone. The detection of the regional context is a
-- parameter, any function.
use system_settings.DateTimeModel.Edits.{set_location}
use system_settings.DateTimeModel.Updates.{model_policy, reload}
use system_settings.LocationMetadata.Defs.{
  LoadStatus, MetadataSystem, ok, missing, invalid, io_error, committed, timezone_id_size,
  metadata_load, metadata_save,
}
use system_settings.LocationMetadata.Recovery.{coordinate_close}
use system_settings.LocationPanel.{
  Panel, Regional, Reference, strlcpy, with_known, metadata_matches_policy,
  refresh_location_authority_state,
}
use system_settings.Policy.{Policy, Common}
use system_settings.Prelude.{
  Bool, false, true, ◌&&◌, ◌||◌, not, Option, none, some, [], Bytes, Double, equal, is_empty,
  if◌then◌else◌,
}
use system_settings.SystemTimeService.Reading.{SystemTimeState}

-- what the status line tells of the last step that tells something
pub data ReconcileStatus : Type 0 where
  nothing unavailable lock_unavailable zone_saved zone_unsaved reference_unsaved : ReconcileStatus

module _ {D W : Type 0} (c : Common D) (f : Double D) (sys : MetadataSystem D W)
    (read_system_time : W → Option SystemTimeState)
    (detect : Regional D → W → Regional D × Bool) where
  -- the record that was loaded under the lock; an unreadable one leaves what is known
  abbrev pub with_authoritative : LoadStatus D → Panel D W → Panel D W
  with_authoritative status p = elim status [
    | ok v ↦ with_known f (some v) p
    | missing ↦ with_known f none p
    | invalid ↦ p
    | io_error ↦ p
  ]

  -- the time zone that is read under the lock, empty if it cannot be read
  abbrev pub locked_timezone : W → Bytes
  locked_timezone w = elim (read_system_time w) as (λ x. Bytes) [ none ↦ [] | some s ↦ s.timezone ]

  -- The panel behind the readings under the lock, and whether the policy could be read.
  unfoldable pub reread : Panel D W → W → Panel D W × Bool
  unfolding refresh_location_authority_state
  reread p w =
      let (m, reloaded) = reload c p.model w in
      let p1 = record p { model = m; regional = (detect p.regional w).0 } in
      let p2 = with_authoritative (metadata_load f sys committed w) p1 in
      (if reloaded then refresh_location_authority_state f p2 else p2, reloaded)

  -- the record of a chosen place gets the new time zone
  unfoldable pub reconcile_zone : Bool → Bytes → Panel D W → W → Panel D W × W × ReconcileStatus
  unfolding metadata_matches_policy
  reconcile_zone reloaded timezone p w =
      let v = record (p.location.metadata) { timezone_id = strlcpy timezone_id_size timezone } in
      let (w1, saved) = metadata_save f sys committed v w in
      if not (
        reloaded
        && metadata_matches_policy f p (model_policy p.model)
        && not (is_empty timezone)
        && not (equal p.location.metadata.timezone_id timezone))
      then (p, w, nothing)
      else if saved
      then (record p { location = record (p.location) { metadata = v } }, w1, zone_saved)
      else (p, w1, zone_unsaved)

  abbrev pub already_at : Option (Policy D) → Reference D → Bool
  already_at none r = false
  already_at (some q) r =
      q.location_configured
      && coordinate_close f q.latitude r.latitude
      && coordinate_close f q.longitude r.longitude

  -- a place that follows the time zone moves to its reference coordinates
  unfoldable pub reconcile_reference : Bool → Bool → Panel D W → W → Panel D W × W × Bool
  reconcile_reference reloaded matches p w =
      if not (reloaded && p.location.follows_timezone_reference && matches)
      then (p, w, true)
      else elim p.regional.reference [
        | none ↦ (p, w, true)
        | some r ↦
            let (m, w1, stored) = set_location c f true r.latitude r.longitude p.model w in
            if already_at (model_policy p.model) r
            then (p, w, true)
            else (record p { model = m }, w1, stored)
      ]

  -- under the lock of the records
  unfoldable pub reconcile_locked : Panel D W → W → Panel D W × W × ReconcileStatus
  unfolding reread reconcile_zone reconcile_reference
  reconcile_locked p w =
      let timezone = locked_timezone w in
      let (regional, detected) = detect p.regional w in
      let matches = detected && not (is_empty timezone) && equal regional.timezone_id timezone in
      let (p1, reloaded) = reread p w in
      let (p2, w1, status) = reconcile_zone reloaded timezone p1 w in
      let (p3, w2, stored) = reconcile_reference reloaded matches p2 w1 in
      (p3, w2, if stored then status else reference_unsaved)

  unfoldable pub reconcile_system_time_change :
      SystemTimeState → Panel D W → W → Panel D W × W × ReconcileStatus
  unfolding reconcile_locked
  reconcile_system_time_change state p w =
      let timezone_changed =
        not (is_empty state.timezone) && not (equal p.regional.timezone_id state.timezone) in
      let p1 = record p { regional = (detect p.regional w).0 } in
      let (w1, locked) = sys.lock w in
      let (p2, w2, status) = reconcile_locked p1 w1 in
      if not state.available
      then (p, w, unavailable)
      else if not (timezone_changed || p1.location.follows_timezone_reference)
      then (p1, w, nothing)
      else if not locked
      then (p1, w1, lock_unavailable)
      else (p2, sys.unlock w2, status)
