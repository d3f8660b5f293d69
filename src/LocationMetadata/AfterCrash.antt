-- ===== src/LocationMetadata/AfterCrash.antt =====
-- The recovery with its lock, after a change of place that was cut off.
use system_settings.DateTimeModel.Backend.{Backend}
use system_settings.LocationMetadata.Defs.{MetadataSystem}
use system_settings.LocationMetadata.Recovered.{Recovered}
use system_settings.LocationMetadata.Recovery.{recover_with, recover}
use system_settings.Policy.{Policy}
use system_settings.Prelude.{Bool, true, Option, some, Double, ◌≡◌, inl, inr, arith, Option-cases}

module _ {D W : Type 0} (f : Double D) (sys : MetadataSystem D W)
    (read : W → Option (Policy D × Bool)) where
  -- A recovery that succeeds has the lock, has read a policy, and gives the lock back at its end.
  pub record Succeeded (w : W) : Type 0 where
    pub policy : Policy D
    pub found : Bool
    pub authority : read (sys.lock w).0 ≡ some (policy, found)
    pub inner : (recover_with f sys policy (sys.lock w).0).1 ≡ true
    pub unlocked :
        (recover f sys (some read) w).0 ≡ sys.unlock (recover_with f sys policy (sys.lock w).0).0

  pub recover-Succeeded : (w : W) → (recover f sys (some read) w).1 ≡ true → Succeeded w
  unfolding recover
  recover-Succeeded w e = elim (Option-cases (read (sys.lock w).0)) [
    | inl unread ↦ absurd (ground arith)
    | inr ((p, q), authority) ↦ record {
      policy = p;
      found = q;
      authority = authority;
      inner = ground arith;
      unlocked = ground arith;
    }
  ]
