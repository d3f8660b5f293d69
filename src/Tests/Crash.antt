-- ===== src/Tests/Crash.antt =====
-- A change of place that is cut off when the policy is written and the journal is not finished.
use system_settings.DateTimeModel.Backend.{Backend, Lawful}
use system_settings.LocationMetadata.Defs.{MetadataFile}
use system_settings.LocationMetadata.Untouched.{Apart}
use system_settings.Policy.{Policy}
use system_settings.Prelude.{ℕ, true, false, none, ◌≡◌, refl, arith, ◌==◌, ◌-◌, if◌then◌else◌}
use system_settings.Tests.Locality.{Disk, disk, chosen_in, interrupted, file_in, keys_in}
use system_settings.Tests.Memory.{defaults}

-- The policy beside the two files, with its lock.
abbrev pub beside : Backend ℕ Disk
beside = record {
  read = chosen_in;
  write = λ p w. (record w { chosen = p; stored = true }, true);
  remove = λ w. (record w { chosen = defaults; stored = false }, true);
  lock = λ w. if w.policy_locks == 0 then (record w { policy_locks = 1 }, true) else (w, false);
  unlock = λ w. record w { policy_locks = w.policy_locks - 1 };
  held = λ w. w.policy_locks;
}

pub beside-Lawful : Lawful beside
beside-Lawful = record {
  write-read = λ p w e. refl;
  write_failed-read = λ p w e. absurd (ground arith);
  remove-read = λ w e. (defaults, refl);
  remove_failed-read = λ w e. absurd (ground arith);
  lock-read = λ w. ground arith;
  unlock-read = λ w. refl;
  lock-held = λ w e. ground arith;
  lock_failed-held = λ w e. ground arith;
  unlock-held = λ w. refl;
  write-held = λ p w. refl;
  remove-held = λ w. refl;
}

write-keys_in :
    (p : Policy ℕ) (file : MetadataFile) (w : Disk)
    → keys_in (file_in file (record w { chosen = p; stored = true })) ≡ keys_in (file_in file w)
write-keys_in p MetadataFile.committed w = refl
write-keys_in p MetadataFile.pending w = refl

remove-keys_in :
    (file : MetadataFile) (w : Disk)
    → keys_in (file_in file (record w { chosen = defaults; stored = false }))
      ≡ keys_in (file_in file w)
remove-keys_in MetadataFile.committed w = refl
remove-keys_in MetadataFile.pending w = refl

unlock-keys_in :
    (file : MetadataFile) (w : Disk)
    → keys_in (file_in file (record w { policy_locks = w.policy_locks - 1 }))
      ≡ keys_in (file_in file w)
unlock-keys_in MetadataFile.committed w = refl
unlock-keys_in MetadataFile.pending w = refl

lock-keys_in :
    (file : MetadataFile) (w : Disk)
    → keys_in (file_in file (beside.lock w).0) ≡ keys_in (file_in file w)
lock-keys_in MetadataFile.committed w = ground arith
lock-keys_in MetadataFile.pending w = ground arith

pub apart : Apart disk beside
apart = record {
  write-keys = write-keys_in;
  remove-keys = remove-keys_in;
  lock-keys = lock-keys_in;
  unlock-keys = unlock-keys_in;
}

abbrev at_first : Disk
at_first = record interrupted { journal = none; chosen = defaults }
