-- ===== src/LinuxStore/Document.antt =====
-- Loading, saving and removing the document.
use system_settings.LinuxStore.Desktop.{Desktop, use_24h_key, show_seconds_key}
use system_settings.LinuxStore.Laws.{LawfulDocuments}
use system_settings.LinuxStore.Store.{
  Documents, IoResult, io_ok, invalid_value, empty, other_failure, load_cinnamon_defaults,
  recovered_defaults, loaded_policy, platform_load, platform_clear,
}
use system_settings.Policy.{Policy, Common}
use system_settings.Prelude.{
  Bool, false, true, some, Bytes, ◌==◌, ◌≡◌, ◌⊎◌, inl, inr, refl, ap, arith, Bool-cases,
  Option-cases,
}

module _ {D W : Type 0} (c : Common D) (d : Desktop W) (files : Documents D W)
    (l : LawfulDocuments d files) where
  -- What is loaded follows from Common's load and the two flags of the desktop.
  same-load_cinnamon_defaults :
      (p : Policy D) (v w : W)
      → ((key : Bytes) → d.get_flag key v ≡ d.get_flag key w)
      → load_cinnamon_defaults c d files p v ≡ load_cinnamon_defaults c d files p w
  unfolding load_cinnamon_defaults
  same-load_cinnamon_defaults p v w flags =
      rw (flags use_24h_key, flags show_seconds_key, load_cinnamon_defaults) refl

  same-recovered_defaults :
      (v w : W)
      → ((key : Bytes) → d.get_flag key v ≡ d.get_flag key w)
      → recovered_defaults c d files v ≡ recovered_defaults c d files w
  unfolding recovered_defaults
  same-recovered_defaults v w flags = elim (Option-cases c.policy_default) [
    | inl none_left ↦ rw (none_left, recovered_defaults) refl
    | inr (p, e) ↦
        rw (e, recovered_defaults)
          (ap (λ q. some (q, false)) (same-load_cinnamon_defaults p v w flags))
  ]

  same-loaded_policy :
      (result : IoResult) (p : Policy D) (found : Bool) (v w : W)
      → ((key : Bytes) → d.get_flag key v ≡ d.get_flag key w)
      → loaded_policy c d files result p found v ≡ loaded_policy c d files result p found w
  unfolding loaded_policy
  same-loaded_policy invalid_value p found v w flags = same-recovered_defaults v w flags
  same-loaded_policy empty p found v w flags = same-recovered_defaults v w flags
  same-loaded_policy other_failure p found v w flags = refl
  same-loaded_policy io_ok p true v w flags = refl
  same-loaded_policy io_ok p false v w flags =
      ap (λ q. some (q, false)) (same-load_cinnamon_defaults p v w flags)

  -- What is loaded follows from Common's load and the two flags of the desktop.
  same-platform_load :
      (v w : W)
      → files.policy_load v ≡ files.policy_load w
      → ((key : Bytes) → d.get_flag key v ≡ d.get_flag key w)
      → platform_load c d files v ≡ platform_load c d files w
  unfolding platform_load
  same-platform_load v w e flags =
      let (result, p, found) = files.policy_load w in
      rw (e, platform_load) (same-loaded_policy result p found v w flags)

  absent-platform_load :
      (w : W) (p : Policy D)
      → files.policy_load w ≡ (io_ok, p, false)
      → platform_load c d files w ≡ some (load_cinnamon_defaults c d files p w, false)
  unfolding platform_load loaded_policy
  absent-platform_load w p e = rw (e, platform_load) refl

  -- How a save ends.
  pub data Stored (p : Policy D) (w w' : W) : Bool → Type 0 where
    stored : platform_load c d files w' ≡ some (p, true) → Stored p w w' true
    unchanged : platform_load c d files w' ≡ platform_load c d files w → Stored p w w' false

  -- How a removal ends.
  pub data Forgotten (w w' : W) : Bool → Type 0 where
    forgotten : (p : Policy D) → platform_load c d files w' ≡ some (p, false) → Forgotten w w' true
    unsure :
        (platform_load c d files w' ≡ platform_load c d files w)
          ⊎ ((p : Policy D) × (platform_load c d files w' ≡ some (p, false)))
        → Forgotten w w' false

  -- A document that was removed is loaded as not found; behind a removal that fails the document is
  -- loaded as before or as not found.
  pub platform_clear-Forgotten :
      (w : W) → Forgotten w (platform_clear c d files w).0 (platform_clear c d files w).1
  unfolding platform_clear
  platform_clear-Forgotten w = elim (Bool-cases ((files.policy_unlink w).1 == 0)) [
    | inr failure ↦
        let after = l.unlink_failed-load w (λ e. ground (arith, failure, e)) in
        rw failure (
          unsure (elim after [
            | inl same ↦
                inl
                  (same-platform_load (files.policy_unlink w).0 w same (λ key. l.unlink-flag key w))
            | inr (p, e) ↦ inr (_, absent-platform_load (files.policy_unlink w).0 p e)
          ]))
    | inl removed ↦
        let (p, e) = l.unlink-load w (ground arith) in
        rw removed (forgotten _ (absent-platform_load (files.policy_unlink w).0 p e))
  ]
