-- ===== src/DateTimeModel/Lifecycle.antt =====
-- Opening and discarding a model, and the bootstrap clock mode.
use system_settings.DateTimeModel.Backend.{Backend, Lawful, Uses, store_of}
use system_settings.DateTimeModel.Defs.{Private, Model}
use system_settings.DateTimeModel.Edits.{clock, edit_change, valid_clock_mode, assign_clock_mode}
use system_settings.DateTimeModel.Location.{IsOpen}
use system_settings.DateTimeModel.Merge.{Document}
use system_settings.DateTimeModel.Updates.{
  LocationUpdate, clear, reload_in, init, normalize_unpersisted_clock_mode,
}
use system_settings.Policy.{Policy, Common}
use system_settings.Prelude.{
  ℕ, Bool, false, true, ◌||◌, Option, none, some, Bytes, Double, ◌≡◌, ◌⊎◌, inl, inr, refl, arith,
  Option-cases, Bool-cases,
}

-- A state that shows a document of the store and is not inside an update.
pub record Shows {D W : Type 0} (b : Backend D W) (p : Policy D) (found : Bool) (m : Model D W)
    : Type 0 where
  pub state : Private D W
  pub has_state : m.private ≡ some state
  pub uses : Uses b state
  pub policy_is : state.policy ≡ p
  pub persisted_is : state.persisted_policy_present ≡ found
  pub saving : state.saving ≡ false

module _ {D W : Type 0} (b : Backend D W) (c : Common D) where
  -- Opening an empty model on a store that has all hooks shows exactly the stored document; where the
  -- document cannot be read, the handle is empty again. Nothing is written.
  pub init-Shows :
      (m : Model D W) (w : W) (p0 : Policy D)
      → m.private ≡ none
      → c.policy_default ≡ some p0
      → ((b.read w ≡ none) × (init c true (some m) (some (store_of b)) w ≡ (some m, w, false)))
        ⊎ ((p : Policy D) × (found : Bool) × (m' : Model D W) × (b.read w ≡ some (p, found))
            × (init c true (some m) (some (store_of b)) w ≡ (some m', w, true))
            × Shows b p found m')
  unfolding init reload_in
  init-Shows m w p0 no_state is_p0 = elim (Option-cases (b.read w)) [
    | inl n ↦ inl (n, ground arith)
    | inr ((p, found), is_p) ↦ inr (
      p,
      found,
      record m {
        private = some (record {
          policy = p;
          store = some (store_of b);
          persisted_policy_present = found;
          saving = false;
        });
      },
      is_p,
      ground arith,
      record {
        state = _;
        has_state = refl;
        uses = refl;
        policy_is = refl;
        persisted_is = refl;
        saving = refl;
      },
    )
  ]

module _ {D W : Type 0} (c : Common D) where
  -- The bootstrap clock mode is changed in memory exactly if the mode is valid, no document was saved
  -- and no update is open, and then as a setter would change it; the provenance stays.
  pub normalize-change :
      (f : Double D) (mode : Option Bytes) (m : Model D W) (s : Private D W)
      → m.private ≡ some s
      → (normalize_unpersisted_clock_mode c mode m ≡ (m, false))
          × ((edit_change c f (clock mode) ≡ none)
              ⊎ (s.saving ≡ true)
              ⊎ (s.persisted_policy_present ≡ true))
        ⊎ ((change : Policy D → Policy D) × (edit_change c f (clock mode) ≡ some change)
            × (s.saving ≡ false)
            × (s.persisted_policy_present ≡ false)
            × (normalize_unpersisted_clock_mode c mode m
                ≡ (record m { private = some (record s { policy = change s.policy }) }, true)))
  unfolding normalize_unpersisted_clock_mode edit_change
  normalize-change f mode m s is_s = elim (Option-cases (valid_clock_mode c mode)) [
    | inl n ↦ inl (ground arith, ground arith)
    | inr (id, is_id) ↦ elim (Bool-cases (s.saving || s.persisted_policy_present)) [
      | inl y ↦ inl (ground arith, ground arith)
      | inr n ↦ inr (assign_clock_mode c id, ground arith, ground arith, ground arith, ground arith)
    ]
  ]

module _ {D W : Type 0} (b : Backend D W) (l : Lawful b) where
  -- Discarding a model inside an open update gives the lock back, keeps the document and empties the
  -- handle.
  pub clear-IsOpen :
      (before : Document D) (held : ℕ) (u : LocationUpdate D) (m : Model D W) (w : W)
      → IsOpen b before held u m w
      → ((clear m w).0.private ≡ none)
        × (b.held (clear m w).1 ≡ held)
        × (b.read (clear m w).1 ≡ b.read w)
  unfolding clear
  clear-IsOpen before held u m w o =
      rw (o.has_state, clear)
        (
          refl,
          ground (arith, o.uses, o.saving, l.unlock-held w, o.locked),
          ground (arith, o.uses, o.saving, l.unlock-read w),
        )
