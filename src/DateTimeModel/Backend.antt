-- ===== src/DateTimeModel/Backend.antt =====
-- A store that offers all hooks, as the platform stores do, with what the model relies on: the lock is
-- exclusive and counted, a save replaces the document whole or leaves it, a removal that succeeds leaves
-- none, and after a removal that fails the document may be there or not.
use system_settings.DateTimeModel.Defs.{Private}
use system_settings.Policy.{Policy, Store}
use system_settings.Prelude.{ℕ, ◌+◌, ◌-◌, Bool, false, true, Option, none, some, ◌≡◌, ◌⊎◌}

pub record Backend (D W : Type 0) : Type 0 where
  pub read : W → Option (Policy D × Bool)
  pub write : Policy D → W → W × Bool
  pub remove : W → W × Bool
  pub lock : W → W × Bool
  pub unlock : W → W
  -- how often this process holds the lock
  pub held : W → ℕ

abbrev pub store_of : {D W : Type 0} → Backend D W → Store D W
store_of b = record {
  load = some b.read;
  save = some b.write;
  clear = some b.remove;
  begin_update = some b.lock;
  end_update = some b.unlock;
  compatibility_matches = none;
}

-- include/system-settings/temporal-policy-store.h, "Populate policy", "Persist one complete validated
-- version-3 policy", "Durably remove the explicit policy document", "acquire the platform's
-- cross-process update lock", "mate for begin_update".
pub record Lawful {D W : Type 0} (b : Backend D W) : Type 0 where
  pub write-read :
      (p : Policy D) (w : W) → (b.write p w).1 ≡ true → b.read (b.write p w).0 ≡ some (p, true)
  pub write_failed-read :
      (p : Policy D) (w : W) → (b.write p w).1 ≡ false → b.read (b.write p w).0 ≡ b.read w
  pub remove-read :
      (w : W) → (b.remove w).1 ≡ true → (p : Policy D) × (b.read (b.remove w).0 ≡ some (p, false))
  pub remove_failed-read :
      (w : W)
      → (b.remove w).1 ≡ false
      → (b.read (b.remove w).0 ≡ b.read w)
        ⊎ ((p : Policy D) × (b.read (b.remove w).0 ≡ some (p, false)))
  pub lock-read : (w : W) → b.read (b.lock w).0 ≡ b.read w
  pub unlock-read : (w : W) → b.read (b.unlock w) ≡ b.read w
  pub lock-held : (w : W) → (b.lock w).1 ≡ true → b.held (b.lock w).0 ≡ b.held w + 1
  pub lock_failed-held : (w : W) → (b.lock w).1 ≡ false → b.held (b.lock w).0 ≡ b.held w
  pub unlock-held : (w : W) → b.held (b.unlock w) ≡ b.held w - 1
  pub write-held : (p : Policy D) (w : W) → b.held (b.write p w).0 ≡ b.held w
  pub remove-held : (w : W) → b.held (b.remove w).0 ≡ b.held w

-- The state is attached to this store.
abbrev pub Uses : {D W : Type 0} → Backend D W → Private D W → Type 0
Uses b s = s.store ≡ some (store_of b)
