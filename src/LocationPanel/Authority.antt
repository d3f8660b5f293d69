-- ===== src/LocationPanel/Authority.antt =====
-- src/modules/date-time/linux-date-time-panel.c: what the panel makes of changes of the two files from
-- outside, and the retries of an interrupted recovery. The widgets and the preview are left out.
use system_settings.DateTimeModel.Updates.{model_policy, reload}
use system_settings.LocationMetadata.Defs.{
  LoadStatus, MetadataSystem, ok, missing, invalid, io_error, committed, metadata_load,
}
use system_settings.LocationMetadata.Recovery.{recover, coordinate_close}
use system_settings.LocationPanel.{
  Panel, with_known, refresh_location_authority_state, cancel_coordinate_commit,
}
use system_settings.Policy.{Policy, Common}
use system_settings.Prelude.{
  ◌*◌, Bool, false, true, ◌&&◌, ◌||◌, not, Option, none, some, Double, equal, if◌then◌else◌, ◌==◌,
}
use Prim.Native.Nat.{min}

-- what the status line tells
pub data ChangeStatus : Type 0 where
  unchanged metadata_unreadable recovered unrecovered policy_changed policy_unreadable :
      ChangeStatus

abbrev pub same_flag_value : Bool → Bool → Bool
same_flag_value true b = b
same_flag_value false b = not b

unfoldable pub temporal_policy_equal : {D : Type 0} → Double D → Policy D → Policy D → Bool
temporal_policy_equal f left right =
    equal left.clock_mode right.clock_mode
    && equal left.calendar right.calendar
    && same_flag_value left.show_seconds right.show_seconds
    && same_flag_value left.location_configured right.location_configured
    && coordinate_close f left.latitude right.latitude
    && coordinate_close f left.longitude right.longitude

-- `schedule_locality_recovery_retry`
unfoldable pub schedule_recovery_retry : {D W : Type 0} → Panel D W → Panel D W
schedule_recovery_retry p =
    let seconds =
      if p.location.recovery_retry_seconds == 0 then 2 else p.location.recovery_retry_seconds in
    if p.location.recovery_pending || not p.location.recovery_failed then p else record p {
      location = record (p.location) {
        recovery_pending = true;
        recovery_retry_seconds = min (seconds * 2) 60;
      };
    }

module _ {D W : Type 0} (f : Double D) where
  -- a record that was read, or that is missing, is no longer uncertain
  abbrev pub with_loaded : LoadStatus D → Panel D W → Panel D W
  with_loaded status p =
      let certain = record p { location = record (p.location) { metadata_uncertain = false } } in
      elim status [
        | ok v ↦ with_known f (some v) certain
        | missing ↦ with_known f none certain
        | invalid ↦ record p { location = record (p.location) { metadata_uncertain = true } }
        | io_error ↦ record p { location = record (p.location) { metadata_uncertain = true } }
      ]

module _ {D W : Type 0} (c : Common D) (f : Double D) (sys : MetadataSystem D W)
    (load : Option (W → Option (Policy D × Bool))) where
  unfoldable pub location_metadata_file_changed : Panel D W → W → Panel D W × ChangeStatus
  unfolding refresh_location_authority_state
  location_metadata_file_changed p w =
      let status = metadata_load f sys committed w in
      (
        refresh_location_authority_state f (with_loaded f status p),
        elim status [
          | ok v ↦ unchanged
          | missing ↦ unchanged
          | invalid ↦ metadata_unreadable
          | io_error ↦ metadata_unreadable
        ],
      )

  -- `retry_locality_recovery`, which the timer calls; it never goes on by itself
  unfoldable pub retry_locality_recovery : Panel D W → W → Panel D W × W × ChangeStatus
  unfolding schedule_recovery_retry location_metadata_file_changed
  retry_locality_recovery p w =
      let fired = record p { location = record (p.location) { recovery_pending = false } } in
      let (w1, done) = recover f sys load w in
      let healed = record fired {
        location = record (fired.location) { recovery_failed = false; recovery_retry_seconds = 2 };
      } in
      let failed = record fired { location = record (fired.location) { recovery_failed = true } } in
      if done
      then ((location_metadata_file_changed healed w1).0, w1, recovered)
      else (schedule_recovery_retry failed, w1, unchanged)

  -- `policy_file_changed`
  unfoldable pub policy_file_changed : Panel D W → W → Panel D W × W × ChangeStatus
  unfolding schedule_recovery_retry refresh_location_authority_state temporal_policy_equal
  policy_file_changed p w = elim (model_policy p.model) [
    | none ↦ (p, w, unchanged)
    | some previous ↦
        let p1 = cancel_coordinate_commit p in
        let (m, reloaded) = reload c p.model w in
        let p2 = record p1 { model = m } in
        let (w1, done) = recover f sys load w in
        let status = metadata_load f sys committed w1 in
        let settled = record p2 {
          location = record (p2.location) { recovery_failed = false; recovery_pending = false };
        } in
        let failed = record p2 { location = record (p2.location) { recovery_failed = true } } in
        let differs : Bool = elim (model_policy m) [
          | none ↦ true
          | some q ↦ not (temporal_policy_equal f previous q)
        ] in
        if not reloaded
        then (p2, w, policy_unreadable)
        else if not done
        then (refresh_location_authority_state f (schedule_recovery_retry failed), w1, unrecovered)
        else (
          refresh_location_authority_state f (with_loaded f status settled),
          w1,
          if differs then policy_changed else unchanged,
        )
  ]
