-- ===== src/LocationPanel/Begun.antt =====
-- How a change of place ends behind the write of the policy.
use mathlib.Core.Path.{subst}
use system_settings.DateTimeModel.Backend.{Backend, Lawful}
use system_settings.DateTimeModel.Closing.{Restores, Survives, rollback-RolledBack, finish-IsClosed}
use system_settings.DateTimeModel.Edits.{assign_location}
use system_settings.DateTimeModel.Location.{IsOpen}
use system_settings.DateTimeModel.Updates.{
  LocationUpdate, finish_location_update, rollback_location_update, reload,
}
use system_settings.LocationMetadata.Defs.{
  MetadataFile, committed, pending, Metadata, ok, MetadataSystem, finish_staged,
}
use system_settings.LocationMetadata.Files.{LawfulFiles}
use system_settings.LocationMetadata.Outcome.{finish_staged-Finished, unlink-Removed}
use system_settings.LocationMetadata.Untouched.{Apart, LawfulLocks, finish_staged-count}
use system_settings.LocationPanel.Commit.{CommitStatus, undo_place, publish_begun}
use system_settings.LocationPanel.Keys.{rollback-unseen, finish-unseen}
use system_settings.LocationPanel.{Panel}
use system_settings.Policy.{Policy, Common}
use system_settings.Prelude.{
  ℕ, Bool, false, true, Option, some, Double, ◌≡◌, inl, inr, refl, sym, ap, ◌∙◌, arith, Bool-cases,
}
use system_settings.LocationPanel.Placed.{
  Interrupted, IsOpen-moved, Placed, Prior, Prior-moved, at, keys_unseen, published_record, rolled,
  same_keys, survived, unpublished_record, unrolled, with_known-Knows, no_save, went_back,
  to_recover, blind, placed,
}

module _ {D W : Type 0} (c : Common D) (f : Double D) (sys : MetadataSystem D W) (b : Backend D W)
    (l : LawfulFiles sys b.read) (lb : Lawful b) (apart : Apart sys b)
    (locks : LawfulLocks sys b) where
  module _ (v : Metadata D) (latitude longitude : D) (previous : Option (Metadata D))
      (p : Panel D W) (w0 : W) where
    abbrev pub Ends : Panel D W × W × CommitStatus → Type 0
    Ends r = Placed c f sys b l lb apart locks v latitude longitude w0 r.0 r.1 r.2

    -- The update is open at `w`, and the record of the change is journalled.
    pub record Ready (u : LocationUpdate D) (w : W) : Type 0 where
      pub was : Option (Policy D × Bool)
      pub was_read : was ≡ b.read w0
      pub held : ℕ
      pub is_open : IsOpen b was held u p.model w
      pub assigned :
          is_open.state.policy ≡ assign_location true latitude longitude u.previous_policy
      pub prior : Prior c f sys b l lb apart locks previous w
      pub as_before :
          at c f sys b l lb apart locks committed w ≡ at c f sys b l lb apart locks committed w0
      pub journal : at c f sys b l lb apart locks pending w ≡ ok v

    pub undo_place-Placed :
        (u : LocationUpdate D) (w : W) → Ready u w → Ends (undo_place c f sys previous p u w)
    unfolding undo_place
    undo_place-Placed u w h =
        let r = rollback_location_update u p.model w in
        let w1 = r.2 in
        let back = rollback-RolledBack b lb h.was h.held u p.model w h.is_open in
        let same : ((file : MetadataFile)
            → at c f sys b l lb apart locks file w1 ≡ at c f sys b l lb apart locks file w) =
          λ file. same_keys c f sys b l lb apart locks file w1 w (
            rollback-unseen b lb f (sys.read_keys file)
              (keys_unseen c f sys b l lb apart locks file) u p.model w h.is_open) in
        let prior1 =
          Prior-moved c f sys b l lb apart locks previous w w1 (same committed) h.prior in
        elim (Bool-cases r.3) [
          | inl y ↦
              let gone = unlink-Removed f sys b.read l pending w1 in
              rw (y, undo_place)
                (went_back
                  (subst (λ d. Restores d (b.read (sys.unlink pending w1).0)) h.was_read
                    (subst (Restores h.was) (sym (gone.2))
                      (rolled c f sys b l lb apart locks back y)))
                  (gone.1 ∙ same committed ∙ h.as_before)
                  (with_known-Knows c f sys b l lb apart locks previous _ _
                    (Prior-moved c f sys b l lb apart locks previous w1 _ (gone.1) prior1)))
          | inr n ↦
              let stays : Interrupted c f sys b l lb apart locks v latitude longitude w0 w1 =
                record {
                  previous = u.previous_policy;
                  found = u.previous_persisted_policy_present;
                  before = sym h.was_read ∙ h.is_open.remembers;
                  after =
                      survived c f sys b l lb apart locks
                        (subst (λ d. Survives d (b.read w) (b.read w1)) h.is_open.remembers
                          (unrolled c f sys b l lb apart locks back n))
                        (h.is_open.shows ∙ ap (λ x. some (x, true)) h.assigned);
                  record_kept = same committed ∙ h.as_before;
                  journalled = same pending ∙ h.journal;
                } in
              elim (Bool-cases (reload c r.0 w1).1) [
                | inl y ↦
                    rw (n, y, undo_place)
                      (to_recover stays
                        (with_known-Knows c f sys b l lb apart locks previous _ w1 prior1))
                | inr z ↦
                    rw (n, z, undo_place)
                      (blind stays
                        (with_known-Knows c f sys b l lb apart locks previous _ w1 prior1))
              ]
        ]

    pub published-Placed :
        (u : LocationUpdate D) (w : W)
        → p.location.metadata ≡ v
        → Ready u w
        → Ends (publish_begun c f sys previous p u true w)
    unfolding publish_begun IsOpen-moved
    published-Placed u w has h =
        let done = (finish_staged f sys w).1 in
        let w1 = (finish_staged f sys w).0 in
        let k = finish_staged-Finished f sys b.read l w in
        let o =
          IsOpen-moved c f sys b l lb apart locks {u = u} {m = p.model} {w = w} w1 (k.1)
            (finish_staged-count f sys b b.held locks.policy_untouched w) h.is_open in
        elim (Bool-cases done) [
          | inr n ↦
              let kept = unpublished_record c f sys b l lb apart locks (k.0) n in
              rw (n, publish_begun)
                (undo_place-Placed u w1 (record {
                  was = h.was;
                  was_read = h.was_read;
                  held = h.held;
                  is_open = o;
                  assigned = h.assigned;
                  prior = Prior-moved c f sys b l lb apart locks previous w w1 (kept.0) h.prior;
                  as_before = kept.0 ∙ h.as_before;
                  journal = kept.1 ∙ h.journal;
                }))
          | inl y ↦
              let q = finish_location_update u p.model w1 in
              let closes = finish-IsClosed b lb h.was h.held u p.model w1 o in
              let same = same_keys c f sys b l lb apart locks committed (q.2) w1 (
                finish-unseen b lb f (sys.read_keys committed)
                  (keys_unseen c f sys b l lb apart locks committed) u p.model w1 o) in
              let there = same ∙ published_record c f sys b l lb apart locks v (k.0) y h.journal in
              rw (y, closes.0, publish_begun)
                (placed
                  (record {
                    previous = u.previous_policy;
                    found = u.previous_persisted_policy_present;
                    before = sym h.was_read ∙ h.is_open.remembers;
                    after = closes.1.document ∙ o.shows ∙ ap (λ x. some (x, true)) h.assigned;
                    published = there;
                  })
                  (record {
                    when_present = λ z. there ∙ ap ok (sym has);
                    when_absent = λ z. absurd (ground arith);
                  }))
        ]

    pub unsaved-Placed :
        (u : LocationUpdate D) (w : W)
        → b.read w ≡ b.read w0
        → at c f sys b l lb apart locks committed w ≡ at c f sys b l lb apart locks committed w0
        → Prior c f sys b l lb apart locks previous w
        → Ends (publish_begun c f sys previous p u false w)
    unfolding publish_begun
    unsaved-Placed u w e g prior =
        let gone = unlink-Removed f sys b.read l pending w in
        no_save (gone.2 ∙ e, gone.1 ∙ g)
          (with_known-Knows c f sys b l lb apart locks previous p _
            (Prior-moved c f sys b l lb apart locks previous w _ (gone.1) prior))

    pub begun-Placed :
        (u : LocationUpdate D) (began : Bool) (w : W)
        → p.location.metadata ≡ v
        → (began ≡ true → Ready u w)
        → (began ≡ false
            → (b.read w ≡ b.read w0)
              × (at c f sys b l lb apart locks committed w
                  ≡ at c f sys b l lb apart locks committed w0)
              × Prior c f sys b l lb apart locks previous w)
        → Ends (publish_begun c f sys previous p u began w)
    begun-Placed u true w has ready same = published-Placed u w has (ready refl)
    begun-Placed u false w has ready same =
        let x = same refl in unsaved-Placed u w (x.0) (x.1) (x.2)
