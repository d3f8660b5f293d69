-- ===== src/LinuxStore/Store.antt =====
-- src/platform/linux/temporal-policy-store.c. Common's files are parameters; `g_build_filename` never
-- returns NULL.
use system_settings.AdvisoryLock.{
  LockSystem, LockState, LockResult, acquired, acquire, release, max_wait_usec,
}
use system_settings.LinuxStore.Desktop.{
  Desktop, use_24h_key, show_seconds_key, settings_new, get_boolean, set_clock_use_24h,
}
use system_settings.Policy.{Policy, Common}
use system_settings.Prelude.{
  ℕ, Bool, false, true, ◌&&◌, ◌||◌, not, Option, none, some, Bytes, codes, equal, if◌then◌else◌,
  ◌==◌, pos,
}

-- `InfiltratrIoResult`, with the results that are told apart
pub data IoResult : Type 0 where
  io_ok invalid_value empty other_failure : IoResult

pub record Documents (D W : Type 0) : Type 0 where
  -- `infiltratr_temporal_posix_policy_load`, with the policy and `found`
  pub policy_load : W → IoResult × Policy D × Bool
  -- `infiltratr_temporal_posix_policy_save`, `infiltratr_unlink_durable`: an errno, or 0
  pub policy_save : Policy D → W → W × ℕ
  pub policy_unlink : W → W × ℕ

abbrev pub lock_retry_usec : ℕ
lock_retry_usec = 5000

-- the two tests of the clock mode
abbrev pub is_24h : {D : Type 0} → Policy D → Bool
is_24h p = equal p.clock_mode (codes "standard-24")

abbrev pub is_12h : {D : Type 0} → Policy D → Bool
is_12h p = equal p.clock_mode (codes "standard-12")

module _ {D W : Type 0} (c : Common D) (d : Desktop W) (files : Documents D W) where
  unfoldable pub load_cinnamon_defaults : Policy D → W → Policy D
  load_cinnamon_defaults p w = if not (settings_new d) then p else record p {
    clock_mode =
        c.copy_string c.clock_mode_size
          (some (if d.get_flag use_24h_key w then codes "standard-24" else codes "standard-12"));
    show_seconds = d.get_flag show_seconds_key w;
  }

  -- The mirror of the clock mode, where Cinnamon has one.
  unfoldable pub mirror_clock_mode : Policy D → W → W × Bool
  mirror_clock_mode p w =
      if is_24h p
      then set_clock_use_24h d true true w
      else if is_12h p
      then set_clock_use_24h d true false w
      else (w, true)

  unfoldable pub mirror_cinnamon_compatibility : Policy D → W → W × Bool
  unfolding mirror_clock_mode
  mirror_cinnamon_compatibility p w =
      let (w1, ok) = mirror_clock_mode p w in
      let (w2, shown) = d.set_flag show_seconds_key p.show_seconds w1 in
      if not (settings_new d) then (w, true) else (d.sync w2, shown && ok)

  abbrev pub same_flag : Option Bool → Bool → Bool
  same_flag none expected = false
  same_flag (some true) expected = expected
  same_flag (some false) expected = not expected

  unfoldable pub platform_compatibility_matches : Policy D → W → Bool
  platform_compatibility_matches p w =
      if not (settings_new d)
      then true
      else if (is_24h p || is_12h p)
          && not (same_flag (get_boolean d true (some use_24h_key) w) (is_24h p))
      then false
      else same_flag (get_boolean d true (some show_seconds_key) w) p.show_seconds

  -- the defaults, seeded from the desktop
  unfoldable pub recovered_defaults : W → Option (Policy D × Bool)
  unfolding load_cinnamon_defaults
  recovered_defaults w = elim c.policy_default [
    | none ↦ none
    | some p ↦ some (load_cinnamon_defaults p w, false)
  ]

  -- what follows from Common's result
  unfoldable pub loaded_policy : IoResult → Policy D → Bool → W → Option (Policy D × Bool)
  unfolding load_cinnamon_defaults recovered_defaults
  loaded_policy invalid_value p found w = recovered_defaults w
  loaded_policy empty p found w = recovered_defaults w
  loaded_policy other_failure p found w = none
  loaded_policy io_ok p true w = some (p, true)
  loaded_policy io_ok p false w = some (load_cinnamon_defaults p w, false)

  unfoldable pub platform_load : W → Option (Policy D × Bool)
  unfolding loaded_policy
  platform_load w = let (result, p, found) = files.policy_load w in loaded_policy result p found w

  -- A mirror that fails does not undo the save.
  unfoldable pub platform_save : Policy D → W → W × Bool
  unfolding mirror_cinnamon_compatibility
  platform_save p w =
      let (w1, failure) = files.policy_save p w in
      if not (failure == 0) then (w1, false) else ((mirror_cinnamon_compatibility p w1).0, true)

  unfoldable pub platform_clear : W → W × Bool
  platform_clear w = let (w1, failure) = files.policy_unlink w in (w1, failure == 0)

-- The update lock is a static variable; the fuel is that of the waiting loop.
module _ {W : Type 0} (os : LockSystem W) (directory lock_path : Bytes) where
  abbrev pub is_acquired : LockResult → Bool
  is_acquired acquired = true
  is_acquired _ = false

  unfoldable pub begin_update : ℕ → LockState → W → Option (LockState × W × Bool)
  begin_update fuel lock w =
      elim (acquire os fuel lock (some directory) (some lock_path) (pos max_wait_usec)
        (pos lock_retry_usec) w) [
          | none ↦ none
          | some (lock', w', result) ↦ some (lock', w', is_acquired result)
        ]

  unfoldable pub end_update : LockState → W → LockState × W
  end_update lock w = release os lock w
