-- ===== src/LocationPanel/RetriesBegun.antt =====
-- The retries of an interrupted recovery, the construction in linux-date-time-panel.c and its handling of a
-- change of the time zone.
use mathlib.Core.Option.{some-injective}
use mathlib.Core.Path.{subst}
use system_settings.DateTimeModel.Defs.{Model}
use system_settings.DateTimeModel.Updates.{model_policy, reload}
use system_settings.LocationMetadata.Defs.{
  LoadStatus, MetadataSystem, ok, missing, invalid, io_error, committed, metadata_load,
  metadata_save, timezone_id_size,
}
use system_settings.LocationMetadata.Recovery.{recover}
use system_settings.LocationPanel.Authority.{schedule_recovery_retry, with_loaded}
use system_settings.LocationPanel.Construction.{
  migrate_legacy_native_clock, panel_new, zeroed_location,
}
use system_settings.LocationPanel.Reconcile.{
  with_authoritative, reread, reconcile_zone, reconcile_reference, already_at, reconcile_locked,
  reconcile_system_time_change,
}
use system_settings.LocationPanel.{
  Panel, Regional, strlcpy, metadata_matches_policy, refresh_location_authority_state,
}
use system_settings.Policy.{Policy, Common}
use system_settings.Prelude.{
  ◌≤◌, Bool, false, true, ◌&&◌, ◌||◌, not, Option, none, some, [], Bytes, Double, equal, is_empty,
  if◌then◌else◌, ◌≡◌, inl, inr, refl, arith, Bool-cases, Option-cases,
}
use system_settings.SystemTimeService.Reading.{SystemTimeState}
use system_settings.LocationPanel.Retries.{
  IsHealing, schedule-IsHealing, refresh-IsHealing, known-IsHealing,
}

module _ {D W : Type 0} (c : Common D) (f : Double D) (sys : MetadataSystem D W)
    (load : Option (W → Option (Policy D × Bool))) (read_system_time : W → Option SystemTimeState)
    (detect : Regional D → W → Regional D × Bool) where
  authoritative-IsHealing :
      (status : LoadStatus D) (p : Panel D W)
      → IsHealing p.location
      → IsHealing (with_authoritative c f sys read_system_time detect status p).location
  authoritative-IsHealing (ok v) p h = known-IsHealing c f sys load (some v) p h
  authoritative-IsHealing missing p h = known-IsHealing c f sys load none p h
  authoritative-IsHealing invalid p h = h
  authoritative-IsHealing io_error p h = h

  reread-IsHealing :
      (p : Panel D W) (w : W)
      → IsHealing p.location
      → IsHealing (reread c f sys read_system_time detect p w).0.location
  unfolding reread
  reread-IsHealing p w h =
      let status = metadata_load f sys committed w in
      let p1 = record p { model = (reload c p.model w).0; regional = (detect p.regional w).0 } in
      elim (Bool-cases (reload c p.model w).1) [
        | inl y ↦
            rw (y, reread)
              (refresh-IsHealing c f sys load
                (with_authoritative c f sys read_system_time detect status p1)
                (authoritative-IsHealing status p1 h))
        | inr n ↦ rw (n, reread) (authoritative-IsHealing status p1 h)
      ]

  zone-IsHealing :
      (reloaded : Bool) (timezone : Bytes) (p : Panel D W) (w : W)
      → IsHealing p.location
      → IsHealing (reconcile_zone c f sys read_system_time detect reloaded timezone p w).0.location
  unfolding reconcile_zone
  zone-IsHealing reloaded timezone p w h =
      elim (Bool-cases (
        reloaded
        && metadata_matches_policy f p (model_policy p.model)
        && not (is_empty timezone)
        && not (equal p.location.metadata.timezone_id timezone))) [
          | inr n ↦ rw (n, reconcile_zone) h
          | inl y ↦
              let v = record (p.location.metadata) {
                timezone_id = strlcpy timezone_id_size timezone;
              } in
              elim (Bool-cases (metadata_save f sys committed v w).1) [
                | inl z ↦
                    rw (y, z, reconcile_zone)
                      (record { healed_or_pending = h.healed_or_pending; soon = h.soon })
                | inr n ↦ rw (y, n, reconcile_zone) h
              ]
        ]

  reference-IsHealing :
      (reloaded matches : Bool) (p : Panel D W) (w : W)
      → IsHealing p.location
      → IsHealing
          (reconcile_reference c f sys read_system_time detect reloaded matches p w).0.location
  unfolding reconcile_reference
  reference-IsHealing reloaded matches p w h =
      elim (Bool-cases (reloaded && p.location.follows_timezone_reference && matches)) [
        | inr n ↦ rw (n, reconcile_reference) h
        | inl y ↦ elim (Option-cases p.regional.reference) [
          | inl n ↦ rw (y, n, reconcile_reference) h
          | inr (r, e) ↦
              elim (Bool-cases
                (already_at c f sys read_system_time detect (model_policy p.model) r)) [
                  | inl z ↦ rw (y, e, z, reconcile_reference) h
                  | inr z ↦ rw (y, e, z, reconcile_reference) h
                ]
        ]
      ]

  pub reconcile-IsHealing :
      (state : SystemTimeState) (p : Panel D W) (w : W)
      → IsHealing p.location
      → IsHealing
          (reconcile_system_time_change c f sys read_system_time detect state p w).0.location
  unfolding reconcile_system_time_change reconcile_locked
  reconcile-IsHealing state p w h =
      let p1 = record p { regional = (detect p.regional w).0 } in
      let w1 = (sys.lock w).0 in
      elim (Bool-cases state.available) [
        | inr n ↦ rw (n, reconcile_system_time_change) h
        | inl y ↦
            elim (Bool-cases (
              not (is_empty state.timezone) && not (equal p.regional.timezone_id state.timezone)
              || p1.location.follows_timezone_reference)) [
                | inr n ↦ rw (y, n, reconcile_system_time_change) h
                | inl z ↦ elim (Bool-cases (sys.lock w).1) [
                  | inr n ↦ rw (y, z, n, reconcile_system_time_change) h
                  | inl k ↦
                      rw (y, z, k, reconcile_system_time_change)
                        (reference-IsHealing _ _ _ _
                          (zone-IsHealing _ _ _ _ (reread-IsHealing p1 w1 h)))
                ]
              ]
      ]

  loaded_seconds :
      (status : LoadStatus D) (p : Panel D W)
      → (with_loaded f status p).location.recovery_retry_seconds ≡ p.location.recovery_retry_seconds
  loaded_seconds (ok v) p = refl
  loaded_seconds missing p = refl
  loaded_seconds invalid p = refl
  loaded_seconds io_error p = refl

  abbrev scheduled : Panel D W → Panel D W
  scheduled p = if p.location.recovery_failed then schedule_recovery_retry p else p

  scheduled-IsHealing :
      (p : Panel D W) → p.location.recovery_retry_seconds ≤ 60 → IsHealing (scheduled p).location
  scheduled-IsHealing p e = by_failure p.location.recovery_failed refl
    where
      by_failure :
          (failed : Bool)
          → p.location.recovery_failed ≡ failed
          → IsHealing (if failed then schedule_recovery_retry p else p).location
      by_failure true y = schedule-IsHealing p e
      by_failure false n = record { healed_or_pending = inl n; soon = e }

  -- A panel whose construction could migrate the legacy clock.
  pub panel_new-IsHealing :
      (use_24h observed : Bool) (m : Model D W) (w : W) (q : Panel D W)
      → (panel_new c f sys load detect use_24h observed m w).0 ≡ some q
      → (panel_new c f sys load detect use_24h observed m w).2 ≡ true
      → IsHealing q.location
  unfolding panel_new refresh_location_authority_state
  panel_new-IsHealing use_24h observed m w q is_q migrated = elim (Option-cases (model_policy m)) [
    | inl n ↦ absurd (ground arith)
    | inr (policy, e) ↦
        let r = recover f sys load w in
        let p1 : Panel D W = record {
          model = m;
          location = record (zeroed_location c f sys load detect) { recovery_failed = not r.1 };
          regional = (detect (record { timezone_id = []; reference = none }) w).0;
        } in
        let status = metadata_load f sys committed r.0 in
        let p3 : Panel D W = record (refresh_location_authority_state f (with_loaded f status p1)) {
          model = (migrate_legacy_native_clock c f sys load detect use_24h m r.0).0;
        } in
        let few : (p3.location.recovery_retry_seconds ≤ 60) =
          omega (arith, loaded_seconds status p1) in
        let same : (scheduled p3 ≡ q) = some-injective (scheduled p3) q (ground arith) in
        subst (λ x. IsHealing (x.location)) same (scheduled-IsHealing p3 few)
  ]
