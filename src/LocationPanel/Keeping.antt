-- ===== src/LocationPanel/Keeping.antt =====
-- A change of the system's time zone leaves a place that was chosen.
use mathlib.Core.Path.{subst}
use system_settings.DateTimeModel.Backend.{Backend, Uses}
use system_settings.DateTimeModel.Defs.{Private, Model}
use system_settings.DateTimeModel.Updates.{model_policy, reload, reload_in}
use system_settings.LocationMetadata.Defs.{
  committed, Metadata, LoadStatus, ok, MetadataSystem, metadata_load, metadata_save,
  timezone_id_size,
}
use system_settings.LocationMetadata.Files.{LawfulFiles}
use system_settings.LocationMetadata.Recovery.{coordinate_close}
use system_settings.LocationMetadata.RoundTrip.{
  same_read-load, metadata_save-Saved, Saved-true, Saved-false,
}
use system_settings.LocationPanel.Reconcile.{
  locked_timezone, reread, reconcile_zone, reconcile_reference, reconcile_locked,
  reconcile_system_time_change,
}
use system_settings.LocationPanel.{
  Panel, Regional, strlcpy, metadata_matches_policy, refresh_location_authority_state,
}
use system_settings.Policy.{Policy, Common}
use system_settings.Prelude.{
  Bool, false, true, ◌&&◌, ◌||◌, not, Option, some, Bytes, Double, equal, is_empty, if◌then◌else◌,
  ◌≡◌, inl, inr, refl, sym, ap, ◌∙◌, arith, Bool-cases,
}
use system_settings.SystemTimeService.Reading.{SystemTimeState}

module _ {D W : Type 0} (c : Common D) (f : Double D) (sys : MetadataSystem D W)
    (read_system_time : W → Option SystemTimeState) (detect : Regional D → W → Regional D × Bool)
    (b : Backend D W) (l : LawfulFiles sys b.read) where
  abbrev at : W → LoadStatus D
  at w = metadata_load f sys committed w

  -- The policy is as before, and the record is still that of the place, with its time zone or a new one.
  pub record Kept (v : Metadata D) (w w' : W) : Type 0 where
    pub policy_kept : b.read w' ≡ b.read w
    pub place_kept : (timezone : Bytes) × (at w' ≡ ok (record v { timezone_id = timezone }))

  -- A panel whose model shows a chosen place, once it was read.
  record Chosen (v : Metadata D) (p : Panel D W) : Type 0 where
    has_metadata : p.location.metadata ≡ v
    follows_none : p.location.follows_timezone_reference ≡ false

  neither : (x : Bool) → (if x then false else false) ≡ false
  neither true = refl
  neither false = refl

  reload-shows :
      (m : Model D W) (s : Private D W) (w : W) (q : Policy D) (found : Bool)
      → m.private ≡ some s
      → Uses b s
      → b.read w ≡ some (q, found)
      → (reload c m w).1 ≡ true
      → model_policy (reload c m w).0 ≡ some q
  unfolding reload reload_in model_policy
  reload-shows m s w q found is_s us r y = ground arith

  reread-Chosen :
      (p : Panel D W) (s : Private D W) (w : W) (q : Policy D) (found : Bool) (v : Metadata D)
      → p.model.private ≡ some s
      → Uses b s
      → b.read w ≡ some (q, found)
      → q.location_configured ≡ true
      → at w ≡ ok v
      → coordinate_close f q.latitude v.latitude ≡ true
      → coordinate_close f q.longitude v.longitude ≡ true
      → (reread c f sys read_system_time detect p w).1 ≡ true
      → Chosen v (reread c f sys read_system_time detect p w).0
  unfolding reread refresh_location_authority_state metadata_matches_policy
  reread-Chosen p s w q found v is_s us r set e x y done =
      let shown = reload-shows p.model s w q found is_s us r done in
      rw (done, e, reread)
        (record {
          has_metadata = refl;
          follows_none = rw (shown, set, x, y) (neither p.location.metadata_uncertain);
        })

  zone-Kept :
      (reloaded : Bool) (timezone : Bytes) (p : Panel D W) (w : W) (v : Metadata D)
      → (reloaded ≡ true → Chosen v p)
      → at w ≡ ok v
      → (let r = reconcile_zone c f sys read_system_time detect reloaded timezone p w in
          Kept v w r.1 × (reloaded ≡ true → r.0.location.follows_timezone_reference ≡ false))
  unfolding reconcile_zone
  zone-Kept reloaded timezone p w v chosen e =
      let zone = strlcpy timezone_id_size timezone in
      let test : Bool =
        reloaded
        && metadata_matches_policy f p (model_policy p.model)
        && not (is_empty timezone)
        && not (equal p.location.metadata.timezone_id timezone) in
      let follows : (reloaded ≡ true → p.location.follows_timezone_reference ≡ false) =
        λ y. (chosen y).follows_none in
      elim (Bool-cases test) [
        | inr n ↦
            rw (n, reconcile_zone)
              (record { policy_kept = refl; place_kept = (v.timezone_id, e) }, follows)
        | inl y ↦
            let has = (chosen (ground arith)).has_metadata in
            let candidate = record (p.location.metadata) { timezone_id = zone } in
            let s = metadata_save-Saved f sys b.read l committed candidate w in
            elim (Bool-cases (metadata_save f sys committed candidate w).1) [
              | inl z ↦
                  let there =
                    Saved-true f sys b.read l (s.0) z
                    ∙ ap (λ m. ok (record m { timezone_id = zone })) has in
                  rw (y, z, reconcile_zone)
                    (record { policy_kept = s.2; place_kept = (zone, there) }, follows)
              | inr z ↦
                  let there = Saved-false f sys b.read l (s.0) z ∙ e in
                  rw (y, z, reconcile_zone)
                    (record { policy_kept = s.2; place_kept = (v.timezone_id, there) }, follows)
            ]
      ]

  reference-stays :
      (reloaded matches : Bool) (p : Panel D W) (w : W)
      → (reloaded ≡ true → p.location.follows_timezone_reference ≡ false)
      → (reconcile_reference c f sys read_system_time detect reloaded matches p w).1 ≡ w
  unfolding reconcile_reference
  reference-stays true matches p w n = rw (n refl, reconcile_reference) refl
  reference-stays false matches p w n = refl

  locked-Kept :
      (p : Panel D W) (s : Private D W) (w : W) (q : Policy D) (found : Bool) (v : Metadata D)
      → p.model.private ≡ some s
      → Uses b s
      → b.read w ≡ some (q, found)
      → q.location_configured ≡ true
      → at w ≡ ok v
      → coordinate_close f q.latitude v.latitude ≡ true
      → coordinate_close f q.longitude v.longitude ≡ true
      → Kept v w (reconcile_locked c f sys read_system_time detect p w).1
  unfolding reconcile_locked
  locked-Kept p s w q found v is_s us r set e x y =
      let timezone = locked_timezone c f sys read_system_time detect w in
      let (regional, detected) = detect p.regional w in
      let matches = detected && not (is_empty timezone) && equal regional.timezone_id timezone in
      let again = reread c f sys read_system_time detect p w in
      let zone = reconcile_zone c f sys read_system_time detect again.1 timezone again.0 w in
      let k =
        zone-Kept again.1 timezone again.0 w v (reread-Chosen p s w q found v is_s us r set e x y)
          e in
      subst (Kept v w) (sym (reference-stays again.1 matches zone.0 zone.1 (k.1))) (k.0)

  -- A change of the system's time zone leaves a place that was chosen: if a record goes with the configured
  -- coordinates, the policy stays as it is, and so does the record but for its time zone.
  pub reconcile-Kept :
      (state : SystemTimeState) (p : Panel D W) (s : Private D W) (w : W) (q : Policy D)
      (found : Bool) (v : Metadata D)
      → p.model.private ≡ some s
      → Uses b s
      → b.read w ≡ some (q, found)
      → q.location_configured ≡ true
      → metadata_load f sys committed w ≡ ok v
      → coordinate_close f q.latitude v.latitude ≡ true
      → coordinate_close f q.longitude v.longitude ≡ true
      → Kept v w (reconcile_system_time_change c f sys read_system_time detect state p w).1
  unfolding reconcile_system_time_change
  reconcile-Kept state p s w q found v is_s us r set e x y =
      let p1 = record p { regional = (detect p.regional w).0 } in
      let w1 = (sys.lock w).0 in
      let r1 = l.lock-policy w in
      let e1 = same_read-load f sys b.read l committed w1 w (l.lock-read committed w) in
      let k = locked-Kept p1 s w1 q found v is_s us (r1 ∙ r) set (e1 ∙ e) x y in
      let w2 = (reconcile_locked c f sys read_system_time detect p1 w1).1 in
      let e2 =
        same_read-load f sys b.read l committed (sys.unlock w2) w2 (l.unlock-read committed w2) in
      let resting : Kept v w w = record { policy_kept = refl; place_kept = (v.timezone_id, e) } in
      let locked : Kept v w w1 = record {
        policy_kept = r1;
        place_kept = (v.timezone_id, e1 ∙ e);
      } in
      let settled : Kept v w (sys.unlock w2) = record {
        policy_kept = l.unlock-policy w2 ∙ k.policy_kept ∙ r1;
        place_kept = (k.place_kept.0, e2 ∙ k.place_kept.1);
      } in
      let test : Bool =
        (not (is_empty state.timezone) && not (equal p.regional.timezone_id state.timezone))
        || p.location.follows_timezone_reference in
      elim (Bool-cases state.available) [
        | inr n ↦ rw (n, reconcile_system_time_change) resting
        | inl a ↦ elim (Bool-cases test) [
          | inr n ↦ rw (a, n, reconcile_system_time_change) resting
          | inl h ↦ elim (Bool-cases (sys.lock w).1) [
            | inr n ↦ rw (a, h, n, reconcile_system_time_change) locked
            | inl z ↦ rw (a, h, z, reconcile_system_time_change) settled
          ]
        ]
      ]
