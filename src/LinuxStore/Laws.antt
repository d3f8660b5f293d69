-- ===== src/LinuxStore/Laws.antt =====
-- What the store relies on in GSettings and in Common's files.
use system_settings.LinuxStore.Desktop.{Desktop, boolean, int32, use_24h_key, show_seconds_key}
use system_settings.LinuxStore.Store.{Documents, io_ok}
use system_settings.Policy.{Policy}
use system_settings.Prelude.{Bool, true, false, some, Bytes, ℤ, ◌≡◌, ◌≢◌, ◌⊎◌}

-- A value that was set is there with its type, also for `g_settings_get_boolean`; the two keys are
-- different, and the GNOME settings are others.
pub record LawfulDesktop {W : Type 0} (d : Desktop W) : Type 0 where
  pub set_flag-value :
      (key : Bytes) (b : Bool) (w : W)
      → (d.set_flag key b w).1 ≡ true
      → d.get_value key (d.set_flag key b w).0 ≡ some (boolean b)
  pub set_seconds-24h :
      (b : Bool) (w : W)
      → d.get_value use_24h_key (d.set_flag show_seconds_key b w).0 ≡ d.get_value use_24h_key w
  pub set_string-value :
      (key text at : Bytes) (w : W) → d.get_value at (d.set_string key text w).0 ≡ d.get_value at w
  pub sync-value : (at : Bytes) (w : W) → d.get_value at (d.sync w) ≡ d.get_value at w
  pub set_int-value :
      (key : Bytes) (n : ℤ) (w : W)
      → (d.set_int key n w).1 ≡ true
      → d.get_value key (d.set_int key n w).0 ≡ some (int32 n)

-- A policy that was saved is loaded, a save that fails leaves the document, an absent document is
-- loaded as not found, a removal that fails may have removed the document, and documents and settings are apart.
pub record LawfulDocuments {D W : Type 0} (d : Desktop W) (files : Documents D W) : Type 0 where
  pub save-load :
      (p : Policy D) (w : W)
      → (files.policy_save p w).1 ≡ 0
      → files.policy_load (files.policy_save p w).0 ≡ (io_ok, p, true)
  pub save_failed-load :
      (p : Policy D) (w : W)
      → (files.policy_save p w).1 ≢ 0
      → files.policy_load (files.policy_save p w).0 ≡ files.policy_load w
  pub save-flag :
      (p : Policy D) (key : Bytes) (w : W)
      → d.get_flag key (files.policy_save p w).0 ≡ d.get_flag key w
  pub unlink-load :
      (w : W)
      → (files.policy_unlink w).1 ≡ 0
      → (p : Policy D) × (files.policy_load (files.policy_unlink w).0 ≡ (io_ok, p, false))
  pub unlink_failed-load :
      (w : W)
      → (files.policy_unlink w).1 ≢ 0
      → (files.policy_load (files.policy_unlink w).0 ≡ files.policy_load w)
        ⊎ ((p : Policy D) × (files.policy_load (files.policy_unlink w).0 ≡ (io_ok, p, false)))
  pub unlink-flag :
      (key : Bytes) (w : W) → d.get_flag key (files.policy_unlink w).0 ≡ d.get_flag key w
  pub set_flag-load :
      (key : Bytes) (b : Bool) (w : W)
      → files.policy_load (d.set_flag key b w).0 ≡ files.policy_load w
  pub set_string-load :
      (key text : Bytes) (w : W)
      → files.policy_load (d.set_string key text w).0 ≡ files.policy_load w
  pub sync-load : (w : W) → files.policy_load (d.sync w) ≡ files.policy_load w
