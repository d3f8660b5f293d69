-- ===== src/DateTimeModel/Location.antt =====
-- A location update from its beginning to its end, over a lawful store.
use system_settings.DateTimeModel.Backend.{Backend, Lawful, Uses}
use system_settings.DateTimeModel.Defs.{Private, Model, begin_candidate}
use system_settings.DateTimeModel.Edits.{valid_location, assign_location}
use system_settings.DateTimeModel.Merge.{Document}
use system_settings.DateTimeModel.Updates.{LocationUpdate, begin_location_in}
use system_settings.Policy.{Policy}
use system_settings.Prelude.{
  ℕ, ◌+◌, Bool, false, true, not, none, some, Double, if◌then◌else◌, ◌≡◌, inl, inr, arith,
  Option-cases,
}

-- An update is open: the model holds the lock, shows what is stored, and the token remembers the
-- document that was there before.
pub record IsOpen {D W : Type 0} (b : Backend D W) (before : Document D) (held : ℕ)
    (u : LocationUpdate D) (m : Model D W) (w : W) : Type 0 where
  pub state : Private D W
  pub has_state : m.private ≡ some state
  pub uses : Uses b state
  pub saving : state.saving ≡ true
  pub active : u.active ≡ true
  pub names : u.model ≡ some m.address
  pub shows : b.read w ≡ some (state.policy, true)
  pub persisted : state.persisted_policy_present ≡ true
  pub remembers : before ≡ some (u.previous_policy, u.previous_persisted_policy_present)
  pub locked : b.held w ≡ held + 1

module _ {D W : Type 0} (b : Backend D W) where
  -- `begin` over the store's five functions.
  unfoldable pub begin_locked :
      Bool
      → D
      → D
      → LocationUpdate D
      → ℕ
      → Private D W
      → W
      → Private D W × LocationUpdate D × W × Bool
  begin_locked configured latitude longitude u address s w =
      let (w1, locked) = b.lock w in
      if not locked then (s, u, w1, false) else elim (b.read w1) [
        | none ↦ (s, u, b.unlock w1, false)
        | some (p, found) ↦
            let candidate = assign_location configured latitude longitude p in
            let (w2, saved) = b.write candidate w1 in
            let u1 = record u {
              model = some address;
              previous_policy = p;
              previous_persisted_policy_present = found;
              active = true;
            } in
            if saved
            then (
              record s { policy = candidate; persisted_policy_present = true; saving = true },
              u1,
              w2,
              true,
            )
            else (s, record u1 { model = none; active = false }, b.unlock w2, false)
      ]

module _ {D W : Type 0} (b : Backend D W) (f : Double D) where
  pub begin-locked :
      (configured : Bool) (latitude longitude : D) (u : LocationUpdate D) (address : ℕ)
      (s : Private D W) (w : W)
      → Uses b s
      → s.saving ≡ false
      → u.active ≡ false
      → valid_location f latitude longitude ≡ true
      → begin_location_in f configured latitude longitude u address s w
        ≡ begin_locked b configured latitude longitude u address s w
  unfolding begin_location_in begin_candidate begin_locked
  begin-locked configured latitude longitude u address s w us n i v = ground arith

  pub begin-invalid :
      (configured : Bool) (latitude longitude : D) (u : LocationUpdate D) (address : ℕ)
      (s : Private D W) (w : W)
      → (valid_location f latitude longitude ≡ false)
      → begin_location_in f configured latitude longitude u address s w ≡ (s, u, w, false)
  unfolding begin_location_in
  begin-invalid configured latitude longitude u address s w v = ground arith

module _ {D W : Type 0} (b : Backend D W) (l : Lawful b) where
  -- The opened state and token, and the document and lock beside them.
  pub locked-open :
      (configured : Bool) (latitude longitude : D) (u : LocationUpdate D) (address : ℕ)
      (s : Private D W) (w : W)
      → (begin_locked b configured latitude longitude u address s w).3 ≡ true
      → (p : Policy D) × (found : Bool) × (b.read w ≡ some (p, found))
        × ((begin_locked b configured latitude longitude u address s w).0 ≡ record s {
          policy = assign_location configured latitude longitude p;
          persisted_policy_present = true;
          saving = true;
        })
        × ((begin_locked b configured latitude longitude u address s w).1 ≡ record {
          model = some address;
          previous_policy = p;
          previous_persisted_policy_present = found;
          active = true;
        })
        × (b.read (begin_locked b configured latitude longitude u address s w).2
            ≡ some (assign_location configured latitude longitude p, true))
        × (b.held (begin_locked b configured latitude longitude u address s w).2 ≡ b.held w + 1)
  unfolding begin_locked
  locked-open configured latitude longitude u address s w e =
      elim (Option-cases (b.read (b.lock w).0)) [
        | inl n ↦ absurd (ground arith)
        | inr (r, is_r) ↦
            let w1 = (b.lock w).0 in
            let q = assign_location configured latitude longitude r.0 in
            (
              r.0,
              r.1,
              ground (arith, l.lock-read w),
              ground arith,
              ground arith,
              ground (arith, l.write-read q w1),
              ground (arith, l.lock-held w, l.write-held q w1),
            )
      ]

  pub locked-refused :
      (configured : Bool) (latitude longitude : D) (u : LocationUpdate D) (address : ℕ)
      (s : Private D W) (w : W)
      → u.active ≡ false
      → (begin_locked b configured latitude longitude u address s w).3 ≡ false
      → ((begin_locked b configured latitude longitude u address s w).0 ≡ s)
        × ((begin_locked b configured latitude longitude u address s w).1.active ≡ false)
        × (b.read (begin_locked b configured latitude longitude u address s w).2 ≡ b.read w)
        × (b.held (begin_locked b configured latitude longitude u address s w).2 ≡ b.held w)
  unfolding begin_locked
  locked-refused configured latitude longitude u address s w i e =
      elim (Option-cases (b.read (b.lock w).0)) [
        | inl n ↦
            let w1 = (b.lock w).0 in
            (
              ground arith,
              ground arith,
              ground (arith, l.lock-read w, l.unlock-read w1),
              ground (arith, l.lock-held w, l.lock_failed-held w, l.unlock-held w1),
            )
        | inr (r, is_r) ↦
            let w1 = (b.lock w).0 in
            let q = assign_location configured latitude longitude r.0 in
            let w2 = (b.write q w1).0 in
            (
              ground arith,
              ground arith,
              ground (arith, l.lock-read w, l.unlock-read w2, l.write_failed-read q w1),
              ground
                  (arith, l.lock-held w, l.lock_failed-held w, l.unlock-held w2, l.write-held q w1),
            )
      ]
