-- ===== src/Tests/Model.antt =====
-- The model over the store in memory.
use system_settings.DateTimeModel.Backend.{store_of}
use system_settings.DateTimeModel.Closing.{RolledBack, finish-IsClosed, rollback-RolledBack}
use system_settings.DateTimeModel.Defs.{
  Private, Model, commit, commit_to, begin_candidate, save_candidate,
}
use system_settings.DateTimeModel.Edits.{
  Edit, clock, calendar, set_edit, edit_change, assign_clock_mode, set_clock_mode, valid_clock_mode,
}
use system_settings.DateTimeModel.Lifecycle.{Shows, init-Shows, clear-IsOpen}
use system_settings.DateTimeModel.Location.{IsOpen}
use system_settings.DateTimeModel.Setters.{Outcome, set_edit-persists}
use system_settings.DateTimeModel.Transaction.{IsClosed}
use system_settings.DateTimeModel.Updates.{
  LocationUpdate, finish_location_update, rollback_location_update, init, clear,
}
use system_settings.Policy.{Policy}
use system_settings.Prelude.{ℕ, Bool, true, false, none, some, List, codes, [], ◌∷◌, ◌≡◌, ◌⊎◌, refl}
use system_settings.Tests.Memory.{
  degrees, defaults, catalogue, Memory, memory, memory-Lawful, saved,
}

-- The state of a process that opened the model when the disk was empty.
abbrev stale : Private ℕ Memory
stale = record {
  policy = defaults;
  store = some (store_of memory);
  persisted_policy_present = false;
  saving = false;
}

abbrev handle : Model ℕ Memory
handle = record { address = 7; private = some stale }

abbrev to_decimal : Edit ℕ
to_decimal = clock (some (codes "decimal"))

abbrev to_coptic : Edit ℕ
to_coptic = calendar (some (codes "coptic"))

-- The stale handle does not undo the seconds that another program saved.
merged : set_edit catalogue degrees to_decimal handle saved ≡ (
  record handle {
    private = some (record stale {
      policy = record defaults { clock_mode = codes "decimal"; show_seconds = true };
      persisted_policy_present = true;
    });
  },
  record saved {
    document = some (record defaults { clock_mode = codes "decimal"; show_seconds = true });
  },
  true,
)
unfolding set_edit set_clock_mode valid_clock_mode commit_to commit begin_candidate save_candidate
    assign_clock_mode
merged = refl

set_edit-persists_example :
    (s' : Private ℕ Memory) × ((set_edit catalogue degrees to_decimal handle saved).0.private
      ≡ some s')
    × Outcome
        (edit_change catalogue degrees to_decimal)
        stale
        s'
        (set_edit catalogue degrees to_decimal handle saved).2
set_edit-persists_example = set_edit-persists catalogue degrees to_decimal handle saved stale refl

-- Two processes, both with the stale handle.
abbrev requests : List (Model ℕ Memory × Edit ℕ)
requests = (handle, to_decimal) ∷ (record handle { address = 8 }, to_coptic) ∷ []

-- A location update that is open after the disk was empty.
abbrev new_token : LocationUpdate ℕ
new_token = record {
  model = none;
  previous_policy = defaults;
  previous_persisted_policy_present = false;
  active = false;
}

abbrev open_token : LocationUpdate ℕ
open_token = record new_token { model = some 7; active = true }

abbrev located : Policy ℕ
located = record defaults { location_configured = true; latitude = 200; longitude = 300 }

abbrev open_state : Private ℕ Memory
open_state = record stale { policy = located; persisted_policy_present = true; saving = true }

abbrev open_handle : Model ℕ Memory
open_handle = record handle { private = some open_state }

abbrev open_disk : Memory
open_disk = record { document = some located; locks = 1 }

is_open : IsOpen memory (some (defaults, false)) 0 open_token open_handle open_disk
is_open = record {
  state = open_state;
  has_state = refl;
  uses = refl;
  saving = refl;
  active = refl;
  names = refl;
  shows = refl;
  persisted = refl;
  remembers = refl;
  locked = refl;
}

finish-IsClosed_example :
    ((finish_location_update open_token open_handle open_disk).3 ≡ true)
    × IsClosed memory
        (memory.read open_disk)
        0
        (finish_location_update open_token open_handle open_disk).1
        (finish_location_update open_token open_handle open_disk).0
        (finish_location_update open_token open_handle open_disk).2
finish-IsClosed_example =
    finish-IsClosed memory memory-Lawful (some (defaults, false)) 0 open_token open_handle open_disk
      is_open

rollback-RolledBack_example :
    RolledBack memory
      (some (defaults, false))
      0
      open_state
      open_disk
      (rollback_location_update open_token open_handle open_disk).1
      (rollback_location_update open_token open_handle open_disk).0
      (rollback_location_update open_token open_handle open_disk).2
      (rollback_location_update open_token open_handle open_disk).3
unfolding is_open
rollback-RolledBack_example =
    rollback-RolledBack memory memory-Lawful (some (defaults, false)) 0 open_token open_handle
      open_disk is_open

init-Shows_example :
    ((memory.read saved ≡ none)
      × (init catalogue true
            (some (record { address = 7; private = none }))
            (some (store_of memory))
            saved
          ≡ (some (record { address = 7; private = none }), saved, false)))
    ⊎ ((p : Policy ℕ) × (found : Bool) × (m' : Model ℕ Memory) × (memory.read saved
          ≡ some (p, found))
        × (init catalogue true
              (some (record { address = 7; private = none }))
              (some (store_of memory))
              saved
            ≡ (some m', saved, true))
        × Shows memory p found m')
init-Shows_example =
    init-Shows memory catalogue (record { address = 7; private = none }) saved defaults refl refl

clear-IsOpen_example :
    ((clear open_handle open_disk).0.private ≡ none)
    × (memory.held (clear open_handle open_disk).1 ≡ 0)
    × (memory.read (clear open_handle open_disk).1 ≡ memory.read open_disk)
clear-IsOpen_example =
    clear-IsOpen memory memory-Lawful (some (defaults, false)) 0 open_token open_handle open_disk
      is_open
