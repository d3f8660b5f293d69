-- ===== src/Tests/Memory.antt =====
-- A store in memory, degrees as numbers from -180 on, and a catalogue that knows every identifier.
use system_settings.DateTimeModel.Backend.{Backend, Lawful}
use system_settings.Policy.{Policy, Common}
use system_settings.Prelude.{
  ℕ, ◌+◌, ◌-◌, Bool, false, true, Option, none, some, codes, [], Double, if◌then◌else◌, ltb, leb,
  ◌==◌, refl, arith,
}

abbrev pub degrees : Double ℕ
degrees = record {
  finite = λ d. true;
  le = leb;
  lt = ltb;
  sub = λ a b. a + 180 - b;
  negate = λ a. 360 - a;
  minus_90 = 90;
  plus_90 = 270;
  minus_180 = 0;
  plus_180 = 360;
  nought = 180;
  micro = 181;
}

abbrev pub defaults : Policy ℕ
defaults = record {
  clock_mode = codes "standard-24";
  calendar = codes "gregorian";
  show_seconds = false;
  location_configured = false;
  latitude = 180;
  longitude = 180;
}

abbrev pub catalogue : Common ℕ
catalogue = record {
  clock_mode_find = λ id. some id;
  id_valid = λ id. elim id [ none ↦ false | some t ↦ true ];
  copy_string = λ size id. elim id [ none ↦ [] | some t ↦ t ];
  clock_mode_size = 64;
  calendar_size = 64;
  policy_default = some defaults;
}

pub record Memory : Type 0 where
  pub document : Option (Policy ℕ)
  pub locks : ℕ

abbrev pub memory_read : Memory → Option (Policy ℕ × Bool)
memory_read w = elim w.document [ none ↦ some (defaults, false) | some p ↦ some (p, true) ]

abbrev pub memory_lock : Memory → Memory × Bool
memory_lock w = if w.locks == 0 then (record w { locks = 1 }, true) else (w, false)

abbrev pub memory : Backend ℕ Memory
memory = record {
  read = memory_read;
  write = λ p w. (record w { document = some p }, true);
  remove = λ w. (record w { document = none }, true);
  lock = memory_lock;
  unlock = λ w. record w { locks = w.locks - 1 };
  held = λ w. w.locks;
}

pub memory-Lawful : Lawful memory
memory-Lawful = record {
  write-read = λ p w e. refl;
  write_failed-read = λ p w e. absurd (ground arith);
  remove-read = λ w e. (defaults, refl);
  remove_failed-read = λ w e. absurd (ground arith);
  lock-read = λ w. ground arith;
  unlock-read = λ w. refl;
  lock-held = λ w e. ground arith;
  lock_failed-held = λ w e. ground arith;
  unlock-held = λ w. refl;
  write-held = λ p w. refl;
  remove-held = λ w. refl;
}

-- An empty disk, and one that a program saved to.
abbrev pub empty : Memory
empty = record { document = none; locks = 0 }

abbrev pub saved : Memory
saved = record { document = some (record defaults { show_seconds = true }); locks = 0 }
