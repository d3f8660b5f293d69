-- ===== src/LocationPanel/Keys.antt =====
-- The model's location update leaves the records alone.
use system_settings.DateTimeModel.Backend.{Backend, Lawful, Uses}
use system_settings.DateTimeModel.Closing.{undo, close_rollback, rollback_in, finish_in}
use system_settings.DateTimeModel.Defs.{Private, Model}
use system_settings.DateTimeModel.Edits.{valid_location, assign_location}
use system_settings.DateTimeModel.Location.{IsOpen, begin_locked}
use system_settings.DateTimeModel.Transaction.{begin-eq, begin_invalid-eq}
use system_settings.DateTimeModel.Updates.{
  LocationUpdate, begin_location_update, finish_location_update, rollback_location_update,
}
use system_settings.Policy.{Policy}
use system_settings.Prelude.{
  ℕ, Bool, false, true, Option, some, Double, ◌≡◌, ◌⊎◌, inl, inr, refl, ◌∙◌, arith, Bool-cases,
  Option-cases,
}

-- What the operations of the store leave as it is.
pub record Unseen {D W X : Type 0} (b : Backend D W) (g : W → X) : Type 0 where
  pub write-unseen : (p : Policy D) (w : W) → g (b.write p w).0 ≡ g w
  pub remove-unseen : (w : W) → g (b.remove w).0 ≡ g w
  pub lock-unseen : (w : W) → g (b.lock w).0 ≡ g w
  pub unlock-unseen : (w : W) → g (b.unlock w) ≡ g w

module _ {D W X : Type 0} (b : Backend D W) (l : Lawful b) (f : Double D) (g : W → X)
    (k : Unseen b g) where
  begin_locked-unseen :
      (latitude longitude : D) (u : LocationUpdate D) (address : ℕ) (s : Private D W) (w : W)
      → g (begin_locked b true latitude longitude u address s w).2 ≡ g w
  unfolding begin_locked
  begin_locked-unseen latitude longitude u address s w =
      let w1 = (b.lock w).0 in
      elim (Option-cases (b.read w1)) [
        | inl n ↦ ground (arith, k.lock-unseen w, k.unlock-unseen w1)
        | inr (r, is_r) ↦
            let q = assign_location true latitude longitude r.0 in
            let w2 = (b.write q w1).0 in
            ground (arith, k.lock-unseen w, k.write-unseen q w1, k.unlock-unseen w2)
      ]

  pub begin-unseen :
      (latitude longitude : D) (u : LocationUpdate D) (m : Model D W) (w : W) (s : Private D W)
      → m.private ≡ some s
      → Uses b s
      → s.saving ≡ false
      → u.active ≡ false
      → g (begin_location_update f true latitude longitude u m w).2 ≡ g w
  begin-unseen latitude longitude u m w s is_s us n i =
      elim (Bool-cases (valid_location f latitude longitude)) [
        | inr v ↦ rw (begin_invalid-eq b f true latitude longitude u m w s is_s v) refl
        | inl v ↦
            rw (begin-eq b f true latitude longitude u m w s is_s us n i v)
              (begin_locked-unseen latitude longitude u m.address s w)
      ]

  undo-unseen : (u : LocationUpdate D) (w : W) → g (undo b l u w).0 ≡ g w
  unfolding undo
  undo-unseen u w = ground (arith, k.write-unseen u.previous_policy w, k.remove-unseen w)

  closed_unseen :
      (u : LocationUpdate D) (s : Private D W) (w : W)
      → ((undo b l u w).1 ≡ true) ⊎ ((undo b l u w).1 ≡ false)
      → g (close_rollback b l u s (undo b l u w).0 (undo b l u w).1).2 ≡ g w
  unfolding close_rollback
  closed_unseen u s w (inl y) = rw (y, close_rollback) (k.unlock-unseen _ ∙ undo-unseen u w)
  closed_unseen u s w (inr n) = rw (n, close_rollback) (k.unlock-unseen _ ∙ undo-unseen u w)

  pub rollback-unseen :
      {before : Option (Policy D × Bool)} {held : ℕ} (u : LocationUpdate D) (m : Model D W) (w : W)
      → IsOpen b before held u m w
      → g (rollback_location_update u m w).2 ≡ g w
  unfolding rollback_location_update close_rollback undo
  rollback-unseen u m w o =
      rw (o.has_state, rollback_location_update)
        (rw (rollback_in b l u m.address o.state w o.uses o.saving o.active o.names)
          (closed_unseen u o.state w (Bool-cases (undo b l u w).1)))

  pub finish-unseen :
      {before : Option (Policy D × Bool)} {held : ℕ} (u : LocationUpdate D) (m : Model D W) (w : W)
      → IsOpen b before held u m w
      → g (finish_location_update u m w).2 ≡ g w
  unfolding finish_location_update
  finish-unseen u m w o =
      rw (o.has_state, finish_location_update)
        (rw (finish_in b l u m.address o.state w o.uses o.saving o.active o.names)
          (k.unlock-unseen w))
