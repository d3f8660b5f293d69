-- ===== src/DateTimeModel/Closing.antt =====
-- The two ends of a location update.
use system_settings.DateTimeModel.Backend.{Backend, Lawful, Uses}
use system_settings.DateTimeModel.Defs.{Private, Model}
use system_settings.DateTimeModel.Location.{IsOpen}
use system_settings.DateTimeModel.Merge.{Document}
use system_settings.DateTimeModel.Transaction.{IsClosed}
use system_settings.DateTimeModel.Updates.{
  LocationUpdate, finish_location_in, finish_location_update, rollback_location_in,
  rollback_location_update,
}
use system_settings.Policy.{Policy}
use system_settings.Prelude.{
  ℕ, Bool, false, true, none, some, if◌then◌else◌, ◌≡◌, inl, inr, refl, ◌∙◌, arith, Bool-cases,
}

-- The document is as before, or was absent before and is absent again.
pub data Restores {D : Type 0} (before after : Document D) : Type 0 where
  same : after ≡ before → Restores before after
  absent :
      (p q : Policy D) → before ≡ some (p, false) → after ≡ some (q, false) → Restores before after

-- The document is as it was when the rollback began; or it was to be removed, and is gone although the
-- removal failed.
pub data Survives {D : Type 0} (before at_rollback after : Document D) : Type 0 where
  kept : after ≡ at_rollback → Survives before at_rollback after
  lost :
      (p q : Policy D)
      → before ≡ some (p, false)
      → after ≡ some (q, false)
      → Survives before at_rollback after

-- How a rollback ends, from an open update at `w` in which the model is in the state `s`.
pub data RolledBack {D W : Type 0} (b : Backend D W) (before : Document D) (held : ℕ)
    (s : Private D W) (w : W) (u' : LocationUpdate D) (m' : Model D W) (w' : W)
    : Bool → Type 0 where
  restored :
      (closed : IsClosed b (b.read w') held u' m' w')
      → Restores before (b.read w')
      → before ≡ some (closed.state.policy, closed.state.persisted_policy_present)
      → RolledBack b before held s w u' m' w' true
  stranded :
      (closed : IsClosed b (b.read w') held u' m' w')
      → Survives before (b.read w) (b.read w')
      → closed.state ≡ record s { saving = false }
      → RolledBack b before held s w u' m' w' false

module _ {D W : Type 0} (b : Backend D W) (l : Lawful b) where
  pub finish_in :
      (u : LocationUpdate D) (address : ℕ) (s : Private D W) (w : W)
      → Uses b s
      → s.saving ≡ true
      → u.active ≡ true
      → u.model ≡ some address
      → finish_location_in u address s w
        ≡ (record s { saving = false }, record u { active = false; model = none }, b.unlock w, true)
  unfolding finish_location_in
  finish_in u address s w us y a n = ground arith

  -- Finishing an open update succeeds, writes nothing, and gives the lock back.
  pub finish-IsClosed :
      (before : Document D) (held : ℕ) (u : LocationUpdate D) (m : Model D W) (w : W)
      → IsOpen b before held u m w
      → (let r = finish_location_update u m w in
          (r.3 ≡ true) × IsClosed b (b.read w) held r.1 r.0 r.2)
  unfolding finish_location_update
  finish-IsClosed before held u m w o =
      rw (o.has_state, finish_location_update)
        (rw (finish_in u m.address o.state w o.uses o.saving o.active o.names) (
          refl,
          record {
            state = record (o.state) { saving = false };
            has_state = refl;
            saving = refl;
            inactive = refl;
            document = l.unlock-read w;
            unlocked = l.unlock-held w ∙ omega (arith, o.locked);
          },
        ))

  -- A rollback over the store's functions: the write, and what follows it.
  unfoldable pub undo : LocationUpdate D → W → W × Bool
  undo u w = if u.previous_persisted_policy_present then b.write u.previous_policy w else b.remove w

  unfoldable pub close_rollback :
      LocationUpdate D → Private D W → W → Bool → Private D W × LocationUpdate D × W × Bool
  close_rollback u s w true = (
    record s {
      policy = u.previous_policy;
      persisted_policy_present = u.previous_persisted_policy_present;
      saving = false;
    },
    record u { active = false; model = none },
    b.unlock w,
    true,
  )
  close_rollback u s w false =
      (record s { saving = false }, record u { active = false; model = none }, b.unlock w, false)

  pub rollback_in :
      (u : LocationUpdate D) (address : ℕ) (s : Private D W) (w : W)
      → Uses b s
      → s.saving ≡ true
      → u.active ≡ true
      → u.model ≡ some address
      → rollback_location_in u address s w ≡ close_rollback u s (undo u w).0 (undo u w).1
  unfolding rollback_location_in undo close_rollback
  rollback_in u address s w us y a n = ground arith

  undo-Restores :
      (before : Document D) (u : LocationUpdate D) (w : W)
      → before ≡ some (u.previous_policy, u.previous_persisted_policy_present)
      → (undo u w).1 ≡ true
      → Restores before (b.read (undo u w).0)
  unfolding undo
  undo-Restores before u w r e = elim (Bool-cases u.previous_persisted_policy_present) [
    | inl y ↦ same (ground (arith, l.write-read u.previous_policy w))
    | inr n ↦
        let (q, is_q) = l.remove-read w (ground arith) in
        absent u.previous_policy q (ground arith) (ground arith)
  ]

  undo-held : (u : LocationUpdate D) (w : W) → b.held (undo u w).0 ≡ b.held w
  unfolding undo
  undo-held u w = ground (arith, l.write-held u.previous_policy w, l.remove-held w)

  undo-Survives :
      (before : Document D) (u : LocationUpdate D) (w : W)
      → before ≡ some (u.previous_policy, u.previous_persisted_policy_present)
      → (undo u w).1 ≡ false
      → Survives before (b.read w) (b.read (undo u w).0)
  unfolding undo
  undo-Survives before u w r e = elim (Bool-cases u.previous_persisted_policy_present) [
    | inl y ↦ kept (ground (arith, l.write_failed-read u.previous_policy w))
    | inr n ↦ elim (l.remove_failed-read w (ground arith)) [
      | inl stays ↦ kept (ground arith)
      | inr (q, gone) ↦ lost u.previous_policy q (ground arith) (ground arith)
    ]
  ]

  -- Rolling an open update back either restores the document and what the model shows, an absent
  -- document as absent; or it fails, and the model shows what it showed, while the document is as it was
  -- when the rollback began or, if it was absent before the update, may be gone. The lock is given back
  -- in either case.
  pub rollback-RolledBack :
      (before : Document D) (held : ℕ) (u : LocationUpdate D) (m : Model D W) (w : W)
      → (o : IsOpen b before held u m w)
      → (let r = rollback_location_update u m w in
          RolledBack b before held o.state w r.1 r.0 r.2 r.3)
  unfolding rollback_location_update close_rollback
  rollback-RolledBack before held u m w o =
      rw (o.has_state, rollback_location_update)
        (rw (rollback_in u m.address o.state w o.uses o.saving o.active o.names)
          (elim (Bool-cases (undo u w).1) [
            | inl y ↦ rw y (
                restored
                  (record {
                    state = _;
                    has_state = refl;
                    saving = refl;
                    inactive = refl;
                    document = refl;
                    unlocked = unlocked;
                  })
                  (rw (l.unlock-read (undo u w).0) (undo-Restores before u w o.remembers y))
                  o.remembers)
            | inr n ↦ rw n (
                stranded
                  (record {
                    state = _;
                    has_state = refl;
                    saving = refl;
                    inactive = refl;
                    document = refl;
                    unlocked = unlocked;
                  })
                  (rw (l.unlock-read (undo u w).0) (undo-Survives before u w o.remembers n)) refl)
          ]))
    where
      unlocked : b.held (b.unlock (undo u w).0) ≡ held
      unlocked = l.unlock-held (undo u w).0 ∙ omega (arith, o.locked, undo-held u w)
