-- ===== src/LocationPanel/Retries.antt =====
-- The retries of an interrupted recovery and the changes of place in linux-date-time-location.c.
use system_settings.DateTimeModel.Updates.{
  LocationUpdate, finish_location_update, rollback_location_update, reload,
}
use system_settings.LocationMetadata.Defs.{
  LoadStatus, Metadata, MetadataSystem, ok, missing, invalid, io_error, stage, finish_staged,
}
use system_settings.LocationPanel.Authority.{schedule_recovery_retry, with_loaded}
use system_settings.LocationPanel.Commit.{
  candidate, undo_place, publish_begun, publish_place, commit_place,
}
use system_settings.LocationPanel.{
  LocationState, Panel, with_known, refresh_location_authority_state, load_authoritative,
}
use system_settings.Policy.{Policy, Common}
use system_settings.Prelude.{
  ◌≤◌, Bool, false, true, Option, none, some, Bytes, Double, ◌≡◌, ◌⊎◌, inl, inr, arith, Bool-cases,
  Option-cases,
}

-- The last recovery succeeded or another is to come, after a minute at most.
pub record IsHealing {D : Type 0} (s : LocationState D) : Type 0 where
  pub healed_or_pending : (s.recovery_failed ≡ false) ⊎ (s.recovery_pending ≡ true)
  pub soon : s.recovery_retry_seconds ≤ 60

pub schedule-IsHealing :
    {D W : Type 0} (p : Panel D W)
    → p.location.recovery_retry_seconds ≤ 60
    → IsHealing (schedule_recovery_retry p).location
unfolding schedule_recovery_retry
schedule-IsHealing p e = record { healed_or_pending = ground arith; soon = ground arith }

module _ {D W : Type 0} (c : Common D) (f : Double D) (sys : MetadataSystem D W)
    (load : Option (W → Option (Policy D × Bool))) where
  pub loaded-IsHealing :
      (status : LoadStatus D) (p : Panel D W)
      → IsHealing p.location
      → IsHealing (with_loaded f status p).location
  loaded-IsHealing (ok v) p h = record { healed_or_pending = h.healed_or_pending; soon = h.soon }
  loaded-IsHealing missing p h = record { healed_or_pending = h.healed_or_pending; soon = h.soon }
  loaded-IsHealing invalid p h = record { healed_or_pending = h.healed_or_pending; soon = h.soon }
  loaded-IsHealing io_error p h = record { healed_or_pending = h.healed_or_pending; soon = h.soon }

  pub refresh-IsHealing :
      (p : Panel D W)
      → IsHealing p.location
      → IsHealing (refresh_location_authority_state f p).location
  unfolding refresh_location_authority_state
  refresh-IsHealing p h = record { healed_or_pending = h.healed_or_pending; soon = h.soon }

  pub settled-IsHealing :
      (status : LoadStatus D) (p : Panel D W)
      → IsHealing p.location
      → IsHealing (refresh_location_authority_state f (with_loaded f status p)).location
  settled-IsHealing status p h =
      refresh-IsHealing (with_loaded f status p) (loaded-IsHealing status p h)

  pub known-IsHealing :
      (previous : Option (Metadata D)) (p : Panel D W)
      → IsHealing p.location
      → IsHealing (with_known f previous p).location
  known-IsHealing none p h = record { healed_or_pending = h.healed_or_pending; soon = h.soon }
  known-IsHealing (some v) p h = record { healed_or_pending = h.healed_or_pending; soon = h.soon }

  undo_place-IsHealing :
      (previous : Option (Metadata D)) (p : Panel D W) (u : LocationUpdate D) (w : W)
      → IsHealing p.location
      → IsHealing (undo_place c f sys previous p u w).0.location
  unfolding undo_place
  undo_place-IsHealing previous p u w h =
      let r = rollback_location_update u p.model w in
      elim (Bool-cases r.3) [
        | inl y ↦ rw (y, undo_place) (known-IsHealing previous _ h)
        | inr n ↦ elim (Bool-cases (reload c r.0 r.2).1) [
          | inl y ↦ rw (n, y, undo_place) (known-IsHealing previous _ h)
          | inr z ↦ rw (n, z, undo_place) (known-IsHealing previous _ h)
        ]
      ]

  publish_begun-IsHealing :
      (previous : Option (Metadata D)) (p : Panel D W) (u : LocationUpdate D) (began : Bool) (w : W)
      → IsHealing p.location
      → IsHealing (publish_begun c f sys previous p u began w).0.location
  unfolding publish_begun
  publish_begun-IsHealing previous p u false w h = known-IsHealing previous p h
  publish_begun-IsHealing previous p u true w h =
      let w1 = (finish_staged f sys w).0 in
      elim (Bool-cases (finish_staged f sys w).1) [
        | inr n ↦ rw (n, publish_begun) (undo_place-IsHealing previous p u w1 h)
        | inl y ↦ elim (Bool-cases (finish_location_update u p.model w1).3) [
          | inr n ↦
              rw (y, n, publish_begun)
                (record { healed_or_pending = h.healed_or_pending; soon = h.soon })
          | inl z ↦
              rw (y, z, publish_begun)
                (record { healed_or_pending = h.healed_or_pending; soon = h.soon })
        ]
      ]

  pub commit_place-IsHealing :
      (name country : Bytes) (timezone : Option Bytes) (latitude longitude : D) (p : Panel D W)
      (w : W)
      → IsHealing p.location
      → IsHealing (commit_place c f sys name country timezone latitude longitude p w).0.location
  unfolding commit_place publish_place
  commit_place-IsHealing name country timezone latitude longitude p w h =
      let v = candidate c f sys name country timezone latitude longitude in
      let w1 = (sys.lock w).0 in
      elim (Bool-cases (sys.lock w).1) [
        | inr n ↦ rw (n, commit_place) h
        | inl y ↦ elim (Option-cases (load_authoritative f sys w1)) [
          | inl n ↦ rw (y, n, commit_place) h
          | inr (previous, e) ↦
              let known = known-IsHealing previous p h in
              elim (Bool-cases (stage f sys v w1).1) [
                | inr n ↦ rw (y, e, n, commit_place) known
                | inl z ↦
                    rw (y, e, z, commit_place)
                      (publish_begun-IsHealing previous _ _ _ _
                        (record { healed_or_pending = known.healed_or_pending; soon = known.soon }))
              ]
        ]
      ]
