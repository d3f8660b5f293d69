-- ===== src/LocationPanel/Locks.antt =====
-- A change of place gives its two locks back.
use system_settings.DateTimeModel.Backend.{Backend, Lawful}
use system_settings.DateTimeModel.Closing.{
  RolledBack, restored, stranded, rollback-RolledBack, finish-IsClosed,
}
use system_settings.DateTimeModel.Location.{IsOpen}
use system_settings.DateTimeModel.Transaction.{Began, opened, refused, begin_location_update-Began}
use system_settings.DateTimeModel.Defs.{Private, Model}
use system_settings.DateTimeModel.Updates.{LocationUpdate, rollback_location_update, reload}
use system_settings.LocationMetadata.Defs.{Metadata, MetadataSystem, pending, stage, finish_staged}
use system_settings.LocationMetadata.Files.{LawfulFiles}
use system_settings.LocationMetadata.Outcome.{finish_staged-Finished}
use system_settings.LocationMetadata.Untouched.{
  Apart, LawfulLocks, metadata_save-count, finish_staged-count,
}
use system_settings.LocationPanel.Commit.{
  fresh_update, candidate, undo_place, publish_begun, publish_place, commit_place,
}
use system_settings.LocationPanel.Keys.{Unseen, begin-unseen, rollback-unseen, finish-unseen}
use system_settings.LocationPanel.Placed.{IsOpen-moved}
use system_settings.LocationPanel.Placing.{IsIdle, known-IsIdle}
use system_settings.LocationPanel.{Panel, with_known, load_authoritative}
use system_settings.Policy.{Policy, Common}
use system_settings.Prelude.{
  ℕ, ◌+◌, Bool, true, Option, Bytes, Double, ◌≡◌, inl, inr, refl, ◌∙◌, arith, Bool-cases,
  Option-cases,
}

module _ {D W : Type 0} (c : Common D) (f : Double D) (sys : MetadataSystem D W) (b : Backend D W)
    (l : LawfulFiles sys b.read) (lb : Lawful b) (apart : Apart sys b)
    (locks : LawfulLocks sys b) where
  abbrev count_unseen : Unseen b locks.held
  count_unseen = record {
    write-unseen = λ p w. locks.untouched.save-count p w;
    remove-unseen = λ w. locks.untouched.remove-count w;
    lock-unseen = λ w. locks.policy_lock-held w;
    unlock-unseen = λ w. locks.policy_unlock-held w;
  }

  -- Both locks are held as often at `w'`, the lock of the policy `held` times.
  abbrev Held : ℕ → W → W → Type 0
  Held held w w' = (locks.held w' ≡ locks.held w) × (b.held w' ≡ held)

  discarded-Held : (held : ℕ) (w w' : W) → Held held w w' → Held held w (sys.unlink pending w').0
  discarded-Held held w w' (e, h) = (
    locks.untouched.unlink-count pending w' ∙ e,
    locks.policy_untouched.unlink-count pending w' ∙ h,
  )

  closed-held :
      {before : Option (Policy D × Bool)} {held : ℕ} {s : Private D W} {w : W}
      {u' : LocationUpdate D} {m' : Model D W} {w' : W} {done : Bool}
      → RolledBack b before held s w u' m' w' done
      → b.held w' ≡ held
  closed-held (restored closed r e) = closed.unlocked
  closed-held (stranded closed d k) = closed.unlocked

  undo_place-Held :
      {before : Option (Policy D × Bool)} {held : ℕ} (previous : Option (Metadata D))
      (p : Panel D W) (u : LocationUpdate D) (w : W)
      → IsOpen b before held u p.model w
      → Held held w (undo_place c f sys previous p u w).1
  unfolding undo_place
  undo_place-Held {before = before} {held = held} previous p u w o =
      let r = rollback_location_update u p.model w in
      let back : Held held w r.2 = (
        rollback-unseen b lb f locks.held count_unseen u p.model w o,
        closed-held (rollback-RolledBack b lb before held u p.model w o),
      ) in
      elim (Bool-cases r.3) [
        | inl y ↦ rw (y, undo_place) (discarded-Held held w r.2 back)
        | inr n ↦ elim (Bool-cases (reload c r.0 r.2).1) [
          | inl y ↦ rw (n, y, undo_place) back
          | inr z ↦ rw (n, z, undo_place) back
        ]
      ]

  published-Held :
      {before : Option (Policy D × Bool)} {held : ℕ} (previous : Option (Metadata D))
      (p : Panel D W) (u : LocationUpdate D) (w : W)
      → IsOpen b before held u p.model w
      → Held held w (publish_begun c f sys previous p u true w).1
  unfolding publish_begun
  published-Held {before = before} {held = held} previous p u w h =
      let w1 = (finish_staged f sys w).0 in
      let k = finish_staged-Finished f sys b.read l w in
      let e = finish_staged-count f sys b locks.held locks.untouched w in
      let o =
        IsOpen-moved c f sys b l lb apart locks {u = u} {m = p.model} {w = w} w1 (k.1)
          (finish_staged-count f sys b b.held locks.policy_untouched w) h in
      elim (Bool-cases (finish_staged f sys w).1) [
        | inr n ↦ let x = undo_place-Held previous p u w1 o in rw (n, publish_begun) (x.0 ∙ e, x.1)
        | inl y ↦
            let closes = finish-IsClosed b lb before held u p.model w1 o in
            rw (y, closes.0, publish_begun)
              (finish-unseen b lb f locks.held count_unseen u p.model w1 o ∙ e, closes.1.unlocked)
      ]

  begun-Held :
      {s : Private D W} {v w : W} {u : LocationUpdate D} {m : Model D W} {done : Bool}
      (latitude longitude : D) (previous : Option (Metadata D)) (p : Panel D W)
      → Began b true latitude longitude s v u m w done
      → Held (b.held v) w (publish_begun c f sys previous (record p { model = m }) u done w).1
  unfolding publish_begun
  begun-Held {u = u} {m = m} latitude longitude previous p (opened o e) =
      published-Held previous (record p { model = m }) u _ o
  begun-Held {w = w} latitude longitude previous p (refused closed k) =
      discarded-Held _ w w (refl, closed.unlocked)

  publish_place-Held :
      (latitude longitude : D) (previous : Option (Metadata D)) (p : Panel D W) (w : W)
      → IsIdle c f sys b l lb apart locks p.model
      → Held (b.held w) w (publish_place c f sys latitude longitude previous p w).1
  unfolding publish_place
  publish_place-Held latitude longitude previous p w idle =
      let u = fresh_update c f sys in
      let x = begun-Held latitude longitude previous p (
        begin_location_update-Began b lb f true latitude longitude u p.model w idle.state
          idle.has_state idle.uses idle.not_saving refl) in
      (
        x.0
            ∙ begin-unseen b lb f locks.held count_unseen latitude longitude u p.model w idle.state
                idle.has_state idle.uses idle.not_saving refl,
        x.1,
      )

  -- A change of place holds each of the two locks as often at its end as at its start, on every path.
  pub commit_place-held :
      (name country : Bytes) (timezone : Option Bytes) (latitude longitude : D) (p : Panel D W)
      (w : W)
      → IsIdle c f sys b l lb apart locks p.model
      → (let w' = (commit_place c f sys name country timezone latitude longitude p w).1 in
          (locks.held w' ≡ locks.held w) × (b.held w' ≡ b.held w))
  unfolding commit_place
  commit_place-held name country timezone latitude longitude p w idle =
      let v = candidate c f sys name country timezone latitude longitude in
      let w1 = (sys.lock w).0 in
      let e1 = locks.lock-policy_held w in
      let w2 = (stage f sys v w1).0 in
      let j = metadata_save-count f sys b locks.held locks.untouched pending v w1 in
      let k = metadata_save-count f sys b b.held locks.policy_untouched pending v w1 in
      elim (Bool-cases (sys.lock w).1) [
        | inr n ↦ rw (n, commit_place) (locks.lock_failed-held w n, e1)
        | inl y ↦
            let taken = locks.lock-held w y in
            elim (Option-cases (load_authoritative f sys w1)) [
              | inl n ↦
                  rw (y, n, commit_place)
                    (given_back w1 taken refl, locks.unlock-policy_held w1 ∙ e1)
              | inr (previous, e) ↦ elim (Bool-cases (stage f sys v w1).1) [
                | inr n ↦
                    rw (y, e, n, commit_place)
                      (given_back w2 taken j, locks.unlock-policy_held w2 ∙ k ∙ e1)
                | inl z ↦
                    let known = with_known f previous p in
                    let p1 = record known { location = record (known.location) { metadata = v } } in
                    let x =
                      publish_place-Held latitude longitude previous p1 w2
                        (known-IsIdle c f sys b l lb apart locks previous p idle) in
                    rw (y, e, z, commit_place)
                      (given_back _ taken (x.0 ∙ j), locks.unlock-policy_held _ ∙ x.1 ∙ k ∙ e1)
              ]
            ]
      ]
    where
      given_back :
          {w1 : W} (w2 : W)
          → locks.held w1 ≡ locks.held w + 1
          → locks.held w2 ≡ locks.held w1
          → locks.held (sys.unlock w2) ≡ locks.held w
      given_back w2 e g = locks.unlock-held w2 ∙ omega (arith, e, g)
