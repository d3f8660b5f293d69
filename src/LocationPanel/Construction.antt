-- ===== src/LocationPanel/Construction.antt =====
-- src/modules/date-time/linux-date-time-panel.c, ss_linux_date_time_panel_new behind the initialisation of
-- the model: the recovery, the reading of the record and the migration of the legacy clock. The widgets
-- and the preview are left out; whether both observers could be made, and what the desktop tells of its
-- clock, are arguments.
use system_settings.DateTimeModel.Defs.{Model}
use system_settings.DateTimeModel.Edits.{set_clock_mode}
use system_settings.DateTimeModel.Updates.{
  model_policy, has_persisted_policy, normalize_unpersisted_clock_mode,
}
use system_settings.LocationMetadata.Defs.{MetadataSystem, committed, metadata_load}
use system_settings.LocationMetadata.Recovery.{recover}
use system_settings.LocationPanel.Authority.{schedule_recovery_retry, with_loaded}
use system_settings.LocationPanel.{
  LocationState, Panel, Regional, no_metadata, refresh_location_authority_state,
}
use system_settings.NativeClock.{native_clock_mode_id, is_legacy_default}
use system_settings.Policy.{Policy, Common}
use system_settings.Prelude.{Bool, false, true, not, Option, none, some, [], Double, if◌then◌else◌}

module _ {D W : Type 0} (c : Common D) (f : Double D) (sys : MetadataSystem D W)
    (load : Option (W → Option (Policy D × Bool)))
    (detect : Regional D → W → Regional D × Bool) where
  -- `migrate_legacy_native_clock`
  unfoldable pub migrate_legacy_native_clock : Bool → Model D W → W → Model D W × W × Bool
  migrate_legacy_native_clock use_24h m w = elim (model_policy m) [
    | none ↦ (m, w, true)
    | some p ↦
        let mode = some (native_clock_mode_id use_24h) in
        let (m1, normalised) = normalize_unpersisted_clock_mode c mode m in
        let (m2, w1, stored) = set_clock_mode c f mode m w in
        if not (is_legacy_default (some p.clock_mode))
        then (m, w, true)
        else if not (has_persisted_policy m)
        then (m1, w, normalised)
        else (m2, w1, stored)
  ]

  -- `g_new0`
  abbrev pub zeroed_location : LocationState D
  zeroed_location = record {
    metadata = no_metadata f;
    metadata_present = false;
    metadata_uncertain = false;
    follows_timezone_reference = false;
    commit_pending = false;
    recovery_pending = false;
    recovery_failed = false;
    recovery_retry_seconds = 0;
    updating_controls = false;
  }

  -- The panel, and whether the legacy clock could be migrated; without that no retry is scheduled.
  unfoldable pub panel_new :
      (use_24h observed : Bool) → Model D W → W → Option (Panel D W) × W × Bool
  unfolding migrate_legacy_native_clock schedule_recovery_retry refresh_location_authority_state
  panel_new use_24h observed m w = elim (model_policy m) [
    | none ↦ (none, w, false)
    | some policy ↦
        let fresh : Panel D W = record {
          model = m;
          location = zeroed_location;
          regional = (detect (record { timezone_id = []; reference = none }) w).0;
        } in
        let (w1, done) = recover f sys load w in
        let p1 = record fresh {
          location = record (fresh.location) { recovery_failed = not done };
        } in
        let status = metadata_load f sys committed w1 in
        let p2 = refresh_location_authority_state f (with_loaded f status p1) in
        let (m1, w2, migrated) = migrate_legacy_native_clock use_24h m w1 in
        let p3 = record p2 { model = m1 } in
        if not observed
        then (none, w1, false)
        else if not migrated
        then (some p3, w2, false)
        else if p3.location.recovery_failed
        then (some (schedule_recovery_retry p3), w2, true)
        else (some p3, w2, true)
  ]
