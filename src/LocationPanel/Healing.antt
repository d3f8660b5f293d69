-- ===== src/LocationPanel/Healing.antt =====
-- The retries of an interrupted recovery in linux-date-time-panel.c over the life of a panel.
use system_settings.LocationMetadata.Defs.{MetadataSystem}
use system_settings.LocationPanel.Authority.{
  location_metadata_file_changed, retry_locality_recovery, policy_file_changed,
}
use system_settings.DateTimeModel.Defs.{Model}
use system_settings.LocationPanel.Commit.{on_location_result_activated, commit_location_coordinates}
use system_settings.LocationPanel.Construction.{panel_new}
use system_settings.LocationPanel.Reconcile.{reconcile_system_time_change}
use system_settings.LocationSearch.{SearchResult}
use system_settings.SystemTimeService.Reading.{SystemTimeState}
use system_settings.LocationPanel.{Panel, Regional, on_location_coordinate_changed}
use system_settings.Policy.{Policy, Common}
use system_settings.Prelude.{Bool, true, Option, some, Bytes, Double, ◌≡◌}

module _ {D W : Type 0} (c : Common D) (f : Double D) (sys : MetadataSystem D W)
    (load : Option (W → Option (Policy D × Bool))) where
  -- A panel over time, from a construction that could migrate the legacy clock: the timer of the recovery,
  -- changes of the two files, changes of place, typed coordinates, changes of the time zone, and what
  -- leaves the state of the location: other handlers, which change the model, and others' changes.
  module _ (read_system_time : W → Option SystemTimeState)
      (detect : Regional D → W → Regional D × Bool) where
    pub data Life : Panel D W → W → Type 0 where
      constructed :
          (use_24h observed : Bool) (m : Model D W) (w : W) (q : Panel D W)
          → (panel_new c f sys load detect use_24h observed m w).0 ≡ some q
          → (panel_new c f sys load detect use_24h observed m w).2 ≡ true
          → Life q (panel_new c f sys load detect use_24h observed m w).1
      timer :
          {q : Panel D W} {u : W}
          → Life q u
          → q.location.recovery_pending ≡ true
          → Life
              (retry_locality_recovery c f sys load q u).0
              (retry_locality_recovery c f sys load q u).1
      metadata_file :
          {q : Panel D W} {u : W}
          → Life q u
          → Life (location_metadata_file_changed c f sys load q u).0 u
      policy_file :
          {q : Panel D W} {u : W}
          → Life q u
          → Life (policy_file_changed c f sys load q u).0 (policy_file_changed c f sys load q u).1
      activated :
          {q : Panel D W} {u : W} (r : SearchResult D) (timezone : Option Bytes)
          → Life q u
          → Life
              (on_location_result_activated c f sys r timezone q u).0
              (on_location_result_activated c f sys r timezone q u).1
      typed : {q : Panel D W} {u : W} → Life q u → Life (on_location_coordinate_changed q) u
      coordinates :
          {q : Panel D W} {u : W} (latitude longitude : D) (timezone : Option Bytes)
          → Life q u
          → Life
              (commit_location_coordinates c f sys latitude longitude timezone q u).0
              (commit_location_coordinates c f sys latitude longitude timezone q u).1
      time_zone :
          {q : Panel D W} {u : W} (state : SystemTimeState)
          → Life q u
          → Life
              (reconcile_system_time_change c f sys read_system_time detect state q u).0
              (reconcile_system_time_change c f sys read_system_time detect state q u).1
      elsewhere :
          {q : Panel D W} {u : W} (m : Model D W) (u' : W)
          → Life q u
          → Life (record q { model = m }) u'
