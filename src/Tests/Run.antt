-- ===== src/Tests/Run.antt =====
-- A whole command over the files and the policy in memory.
use system_settings.LocationMetadata.Defs.{MetadataFile, committed, pending}
use system_settings.Prelude.{ℕ, true, Option, none, some, Bytes, ◌≡◌, refl, arith, if◌then◌else◌}
use system_settings.LocationMetadata.Untouched.{Untouched, LawfulLocks}
use system_settings.SettingsCommand.Locking.{main-held}
use system_settings.SettingsCommand.Main.{main}
use system_settings.SettingsCommand.RollingBack.{store_with}
use system_settings.SettingsCommand.Reports.{Reports}
use system_settings.Tests.Command.{arguments, first_byte}
use system_settings.Tests.Crash.{beside, beside-Lawful, apart}
use system_settings.Tests.Locality.{Disk, disk, disk-LawfulFiles, interrupted, put}
use system_settings.Tests.Memory.{degrees, catalogue}

-- 1 as long as the lock of the records is taken
abbrev locality_held : Disk → ℕ
locality_held w = if w.taken then 1 else 0

put-taken :
    (file : MetadataFile) (text : Option Bytes) (w : Disk) → (put file text w).taken ≡ w.taken
put-taken committed text w = refl
put-taken pending text w = refl

put-policy_locks :
    (file : MetadataFile) (text : Option Bytes) (w : Disk)
    → (put file text w).policy_locks ≡ w.policy_locks
put-policy_locks committed text w = refl
put-policy_locks pending text w = refl

pub taken-Untouched : Untouched disk beside locality_held
taken-Untouched = record {
  write-count = λ file text w. rw (put-taken file (some text) w) refl;
  unlink-count = λ file w. rw (put-taken file none w) refl;
  mkdir-count = λ w. refl;
  chmod-count = λ w. refl;
  save-count = λ p w. refl;
  remove-count = λ w. refl;
}

pub policy-Untouched : Untouched disk beside (λ w. w.policy_locks)
policy-Untouched = record {
  write-count = λ file text w. put-policy_locks file (some text) w;
  unlink-count = λ file w. put-policy_locks file none w;
  mkdir-count = λ w. refl;
  chmod-count = λ w. refl;
  save-count = λ p w. refl;
  remove-count = λ w. refl;
}

abbrev pub locks : LawfulLocks disk beside
locks = record {
  held = locality_held;
  untouched = taken-Untouched;
  policy_untouched = policy-Untouched;
  lock-held = λ w e. ground arith;
  lock_failed-held = λ w e. ground arith;
  unlock-held = λ w. ground arith;
  policy_lock-held = λ w. ground arith;
  policy_unlock-held = λ w. refl;
  lock-policy_held = λ w. refl;
  unlock-policy_held = λ w. refl;
}

abbrev pub at_rest : Disk
at_rest = record interrupted { journal = none }

main-held_example :
    (let r =
        main catalogue degrees disk first_byte
          (some (store_with beside none))
          true
          true
          arguments
          at_rest in
      (locality_held r.world ≡ 0) × (r.world.policy_locks ≡ 0))
main-held_example =
    main-held catalogue degrees disk first_byte beside none disk-LawfulFiles beside-Lawful apart
      locks true true arguments at_rest
