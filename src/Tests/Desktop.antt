-- ===== src/Tests/Desktop.antt =====
-- The Linux store over settings and a document in memory.
use system_settings.LinuxStore.Desktop.{
  Desktop, Value, boolean, int32, use_24h_key, first_day_key, settings_new, has_key, get_first_day,
  set_first_day, set_clock_use_24h, set_boolean, get_boolean,
}
use system_settings.LinuxStore.Laws.{LawfulDesktop}
use system_settings.LinuxStore.Mirror.{mirror-compatibility_matches}
use system_settings.LinuxStore.Store.{
  Documents, mirror_clock_mode, io_ok, mirror_cinnamon_compatibility,
  platform_compatibility_matches,
}
use system_settings.Policy.{Policy}
use system_settings.Prelude.{
  ℕ, Bool, true, false, Option, none, some, Bytes, equal, equal_refl, if◌then◌else◌, pos, ◌≡◌, refl,
}
use system_settings.Tests.Memory.{defaults, catalogue}

record Session : Type 0 where
  pub values : Bytes → Option Value
  pub document : Option (Policy ℕ)

abbrev put : Bytes → Value → Session → Session
put key v w = record w { values = λ at. if equal at key then some v else w.values at }

abbrev flag_of : Option Value → Bool
flag_of (some (boolean b)) = b
flag_of _ = false

abbrev mint : Desktop Session
mint = record {
  has_source = true;
  has_schema = λ s. true;
  schema_has_key = λ s key. true;
  get_value = λ key w. w.values key;
  get_flag = λ key w. flag_of (w.values key);
  set_flag = λ key b w. (put key (boolean b) w, true);
  set_int = λ key n w. (put key (int32 n) w, true);
  set_string = λ key text w. (w, true);
  sync = λ w. w;
}

abbrev home : Documents ℕ Session
home = record {
  policy_load =
      λ w. elim w.document [ none ↦ (io_ok, defaults, false) | some p ↦ (io_ok, p, true) ];
  policy_save = λ p w. (record w { document = some p }, 0);
  policy_unlink = λ w. (record w { document = none }, 0);
}

put-values : (key : Bytes) (v : Value) (w : Session) → (put key v w).values key ≡ some v
put-values key v w = rw (equal_refl key) refl

mint-LawfulDesktop : LawfulDesktop mint
unfolding equal
mint-LawfulDesktop = record {
  set_flag-value = λ key b w e. put-values key (boolean b) w;
  set_seconds-24h = λ b w. refl;
  set_string-value = λ key text at w. refl;
  sync-value = λ at w. refl;
  set_int-value = λ key n w e. put-values key (int32 n) w;
}

-- Cinnamon shows twelve hours and its week begins with Sunday.
abbrev session : Session
session = record {
  values = λ at.
      if equal at use_24h_key
      then some (boolean false)
      else if equal at first_day_key
      then some (int32 (pos 7))
      else none;
  document = none;
}

abbrev railway : Policy ℕ
railway = record defaults { show_seconds = true }

mirrors : (mirror_cinnamon_compatibility catalogue mint home railway session).1 ≡ true
unfolding mirror_cinnamon_compatibility mirror_clock_mode set_clock_use_24h set_boolean get_boolean
    has_key settings_new equal
mirrors = refl

mirror-compatibility_matches_example :
    platform_compatibility_matches catalogue mint home railway
      (mirror_cinnamon_compatibility catalogue mint home railway session).0
    ≡ true
mirror-compatibility_matches_example =
    mirror-compatibility_matches mint mint-LawfulDesktop catalogue home railway session mirrors

sets : (set_first_day mint true (pos 1) session).1 ≡ true
unfolding set_first_day get_first_day has_key equal
sets = refl
