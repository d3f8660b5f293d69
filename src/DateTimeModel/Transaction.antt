-- ===== src/DateTimeModel/Transaction.antt =====
-- The location transaction of the model as its callers see it.
use system_settings.DateTimeModel.Backend.{Backend, Lawful, Uses}
use system_settings.DateTimeModel.Defs.{Private, Model}
use system_settings.DateTimeModel.Edits.{valid_location, assign_location}
use system_settings.DateTimeModel.Location.{
  IsOpen, begin_locked, begin-locked, locked-open, locked-refused, begin-invalid,
}
use system_settings.DateTimeModel.Updates.{LocationUpdate, begin_location_update}
use system_settings.Policy.{Policy}
use system_settings.Prelude.{
  ℕ, Bool, false, true, Option, some, Double, ◌≡◌, inl, inr, refl, Bool-cases,
}

-- No update is open, the document is `after`, and the lock is held `held` times.
pub record IsClosed {D W : Type 0} (b : Backend D W) (after : Option (Policy D × Bool)) (held : ℕ)
    (u : LocationUpdate D) (m : Model D W) (w : W) : Type 0 where
  pub state : Private D W
  pub has_state : m.private ≡ some state
  pub saving : state.saving ≡ false
  pub inactive : u.active ≡ false
  pub document : b.read w ≡ after
  pub unlocked : b.held w ≡ held

module _ {D W : Type 0} (b : Backend D W) (f : Double D) where
  pub begin-eq :
      (configured : Bool) (latitude longitude : D) (u : LocationUpdate D) (m : Model D W) (w : W)
      (s : Private D W)
      → m.private ≡ some s
      → Uses b s
      → s.saving ≡ false
      → u.active ≡ false
      → valid_location f latitude longitude ≡ true
      → begin_location_update f configured latitude longitude u m w ≡ (
          let r = begin_locked b configured latitude longitude u m.address s w in
          (record m { private = some r.0 }, r.1, r.2, r.3))
  unfolding begin_location_update
  begin-eq configured latitude longitude u m w s is_s us n i v =
      rw (is_s, begin_location_update)
        (rw (begin-locked b f configured latitude longitude u m.address s w us n i v))

  pub begin_invalid-eq :
      (configured : Bool) (latitude longitude : D) (u : LocationUpdate D) (m : Model D W) (w : W)
      (s : Private D W)
      → m.private ≡ some s
      → valid_location f latitude longitude ≡ false
      → begin_location_update f configured latitude longitude u m w
        ≡ (record m { private = some s }, u, w, false)
  unfolding begin_location_update
  begin_invalid-eq configured latitude longitude u m w s is_s v =
      rw (is_s, begin_location_update)
        (rw (begin-invalid b f configured latitude longitude u m.address s w v))

-- How `begin` ends from the state `s`: with an open update, or with everything as it was.
pub data Began {D W : Type 0} (b : Backend D W) (configured : Bool) (latitude longitude : D)
    (s : Private D W) (before : W) (u : LocationUpdate D) (m : Model D W) (w : W)
    : Bool → Type 0 where
  opened :
      (o : IsOpen b (b.read before) (b.held before) u m w)
      → o.state.policy ≡ assign_location configured latitude longitude u.previous_policy
      → Began b configured latitude longitude s before u m w true
  refused :
      (closed : IsClosed b (b.read before) (b.held before) u m w)
      → closed.state ≡ s
      → Began b configured latitude longitude s before u m w false

module _ {D W : Type 0} (b : Backend D W) (l : Lawful b) (f : Double D) where
  pub begin_location_update-Began :
      (configured : Bool) (latitude longitude : D) (u : LocationUpdate D) (m : Model D W) (w : W)
      (s : Private D W)
      → m.private ≡ some s
      → Uses b s
      → s.saving ≡ false
      → u.active ≡ false
      → (let r = begin_location_update f configured latitude longitude u m w in
          Began b configured latitude longitude s w r.1 r.0 r.2 r.3)
  begin_location_update-Began configured latitude longitude u m w s is_s us n i =
      elim (Bool-cases (valid_location f latitude longitude)) [
        | inr v ↦ rw (begin_invalid-eq b f configured latitude longitude u m w s is_s v) (
            refused
              (record {
                state = s;
                has_state = refl;
                saving = n;
                inactive = i;
                document = refl;
                unlocked = refl;
              })
              refl)
        | inl v ↦
            rw (begin-eq b f configured latitude longitude u m w s is_s us n i v)
              (elim (Bool-cases (begin_locked b configured latitude longitude u m.address s w).3) [
                | inl y ↦
                    let o = locked-open b l configured latitude longitude u m.address s w y in
                    rw y (
                      opened
                        (record {
                          state = _;
                          has_state = refl;
                          uses = rw o.3 us;
                          saving = rw o.3 refl;
                          active = rw o.4 refl;
                          names = rw o.4 refl;
                          shows = rw o.3 o.5;
                          persisted = rw o.3 refl;
                          remembers = rw o.4 o.2;
                          locked = o.6;
                        })
                        (rw o.3 (rw o.4 refl)))
                | inr no_open ↦
                    let o =
                      locked-refused b l configured latitude longitude u m.address s w i no_open in
                    rw no_open (
                      refused
                        (record {
                          state = _;
                          has_state = refl;
                          saving = rw o.0 n;
                          inactive = o.1;
                          document = o.2;
                          unlocked = o.3;
                        })
                        o.0)
              ])
      ]
