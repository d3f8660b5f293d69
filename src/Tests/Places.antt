-- ===== src/Tests/Places.antt =====
-- A change of place in a panel over the files and the policy in memory.
use system_settings.DateTimeModel.Backend.{store_of}
use system_settings.DateTimeModel.Defs.{begin_candidate}
use system_settings.DateTimeModel.Edits.{valid_location}
use system_settings.DateTimeModel.Updates.{
  begin_location_update, begin_location_in, finish_location_update, finish_location_in,
}
use system_settings.LocationMetadata.Defs.{
  ok, committed, metadata_load, metadata_valid, metadata_of_keys, metadata_save, finish_staged,
}
use system_settings.LocationPanel.Commit.{CommitStatus, commit_place}
use system_settings.LocationMetadata.Recovery.{coordinate_close}
use system_settings.LocationPanel.Keeping.{Kept, reconcile-Kept}
use system_settings.LocationPanel.Reconcile.{reconcile_system_time_change}
use system_settings.SystemTimeService.Reading.{SystemTimeState}
use system_settings.LocationPanel.Locks.{commit_place-held}
use system_settings.LocationPanel.Placed.{Placed}
use system_settings.LocationPanel.{Panel, Regional, no_metadata, load_authoritative}
use system_settings.Prelude.{ℕ, Bool, ◌∷◌, true, false, none, some, [], codes, ◌≡◌, Option, refl}
use system_settings.Tests.Crash.{beside, beside-Lawful}
use system_settings.Tests.Locality.{
  Disk, disk, disk-LawfulFiles, interrupted, pretoria, at_pretoria,
}
use system_settings.Tests.Memory.{degrees, defaults, catalogue}
use system_settings.Tests.Crash.{apart}
use system_settings.Tests.Run.{locks, at_rest}

abbrev pub panel : Panel ℕ Disk
panel = record {
  model = record {
    address = 1;
    private = some (record {
      policy = defaults;
      store = some (store_of beside);
      persisted_policy_present = false;
      saving = false;
    });
  };
  location = record {
    metadata = no_metadata degrees;
    metadata_present = false;
    metadata_uncertain = false;
    follows_timezone_reference = true;
    commit_pending = false;
    recovery_pending = false;
    recovery_failed = false;
    recovery_retry_seconds = 2;
    updating_controls = false;
  };
  regional = record { timezone_id = []; reference = none };
}

saves :
    (commit_place catalogue degrees disk (codes "Pretoria") [] none 155 208 panel at_rest).2
    ≡ CommitStatus.saved
unfolding commit_place load_authoritative metadata_load metadata_of_keys metadata_valid
    metadata_save begin_location_update begin_location_in valid_location begin_candidate
    finish_staged finish_location_update finish_location_in
saves = refl

commit_place-held_example :
    (let w' =
        (commit_place catalogue degrees disk (codes "Pretoria") [] none 155 208 panel at_rest).1 in
      (locks.held w' ≡ 0) × (w'.policy_locks ≡ 0))
commit_place-held_example =
    commit_place-held catalogue degrees disk beside disk-LawfulFiles beside-Lawful apart locks
      (codes "Pretoria") [] none 155 208 panel at_rest
      (record { state = _; has_state = refl; uses = refl; not_saving = refl })

abbrev detected : Regional ℕ → Disk → Regional ℕ × Bool
detected r w = (record r { timezone_id = codes "UTC" }, true)

-- Someone else holds the lock of the records when the panel is constructed and when the timer fires.
abbrev taken : Disk
taken = record at_rest { taken = true; current = none }

abbrev no_time : Disk → Option SystemTimeState
no_time w = none

abbrev unhealed : Panel ℕ Disk
unhealed = record panel {
  location = record (panel.location) {
    recovery_failed = true;
    recovery_pending = true;
    recovery_retry_seconds = 4;
  };
  regional = record { timezone_id = codes "UTC"; reference = none };
}

-- Pretoria is chosen, and the system moves to another time zone.
abbrev chosen_place : Disk
chosen_place = record interrupted { current = some (155 ∷ 208 ∷ codes "Pretoria"); journal = none }

abbrev moved : SystemTimeState
moved = record { timezone = codes "UTC"; available = true; can_ntp = true; ntp_enabled = false }

place_known : metadata_load degrees disk committed chosen_place ≡ ok pretoria
unfolding metadata_load metadata_of_keys metadata_valid
place_known = refl

close : coordinate_close degrees 155 155 ≡ true
unfolding coordinate_close
close = refl

close_too : coordinate_close degrees 208 208 ≡ true
unfolding coordinate_close
close_too = refl

reconcile-Kept_example :
    Kept catalogue degrees disk
      (λ w. some moved)
      detected
      beside
      disk-LawfulFiles
      pretoria
      chosen_place
      (reconcile_system_time_change catalogue degrees disk
        (λ w. some moved)
        detected
        moved
        panel
        chosen_place).1
reconcile-Kept_example =
    reconcile-Kept catalogue degrees disk (λ w. some moved) detected beside disk-LawfulFiles moved
      panel
      (record {
        policy = defaults;
        store = some (store_of beside);
        persisted_policy_present = false;
        saving = false;
      })
      chosen_place at_pretoria true pretoria refl refl refl refl place_known close close_too
