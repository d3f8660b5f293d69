-- ===== src/LinuxStore/Mirror.antt =====
-- Mirroring to the desktop, and what the desktop then says.
use system_settings.LinuxStore.Desktop.{
  Desktop, boolean, use_24h_key, show_seconds_key, first_day_key, settings_new, has_key,
  get_boolean, set_boolean, get_first_day, is_first_day, set_first_day, set_clock_use_24h,
}
use system_settings.LinuxStore.Laws.{LawfulDesktop}
use system_settings.LinuxStore.Store.{
  Documents, is_24h, is_12h, mirror_clock_mode, mirror_cinnamon_compatibility, same_flag,
  platform_compatibility_matches,
}
use system_settings.Policy.{Policy, Common}
use system_settings.Prelude.{
  Bool, false, true, ◌||◌, some, codes, if◌then◌else◌, ◌==◌, ℤ, pos, negsuc, ◌≡◌, ◌⊎◌, inl, inr,
  refl, ap, arith, Bool-cases,
}

module _ {W : Type 0} (d : Desktop W) (l : LawfulDesktop d) where
  -- A mode that was set is what the Cinnamon settings hold, whatever becomes of the GNOME ones.
  pub set_clock_use_24h-value :
      (use_24h : Bool) (w : W)
      → (set_clock_use_24h d true use_24h w).1 ≡ true
      → d.get_value use_24h_key (set_clock_use_24h d true use_24h w).0 ≡ some (boolean use_24h)
  unfolding set_clock_use_24h set_boolean
  set_clock_use_24h-value use_24h w e =
      let w1 = (d.set_flag use_24h_key use_24h w).0 in
      let text = if use_24h then codes "24h" else codes "12h" in
      let w2 = (d.set_string (codes "clock-format") text w1).0 in
      ground (
        arith,
        l.set_flag-value use_24h_key use_24h w,
        l.sync-value use_24h_key w1,
        l.sync-value use_24h_key w2,
        l.set_string-value (codes "clock-format") text use_24h_key w1,
      )

  is_first_day-cases :
      (value : ℤ)
      → is_first_day d value ≡ true
      → (value ≡ pos 7) ⊎ (value ≡ pos 0) ⊎ (value ≡ pos 1)
  is_first_day-cases (pos n) e = elim (Bool-cases (n == 7)) [
    | inl seven ↦ inl (ap pos (ground arith))
    | inr n7 ↦ elim (Bool-cases (n == 0)) [
      | inl nought ↦ inr (inl (ap pos (ground arith)))
      | inr n0 ↦ inr (inr (ap pos (ground arith)))
    ]
  ]
  is_first_day-cases (negsuc n) e = absurd (ground arith)

  -- A first day of the week that is set is read back, and it is Sunday, by either number, or Monday.
  pub set_first_day-get_first_day :
      (value : ℤ) (w : W)
      → (set_first_day d true value w).1 ≡ true
      → (get_first_day d true (set_first_day d true value w).0 ≡ some value)
        × ((value ≡ pos 7) ⊎ (value ≡ pos 0) ⊎ (value ≡ pos 1))
  unfolding set_first_day get_first_day has_key
  set_first_day-get_first_day value w e = (
    ground (arith, l.set_int-value first_day_key value w),
    is_first_day-cases value (ground arith),
  )

  module _ {D : Type 0} (c : Common D) (files : Documents D W) where
    mirror_clock_mode-value :
        (p : Policy D) (w : W) (on : Bool)
        → (mirror_clock_mode c d files p w).1 ≡ true
        → (is_24h p || is_12h p) ≡ true
        → is_24h p ≡ on
        → d.get_value use_24h_key (mirror_clock_mode c d files p w).0 ≡ some (boolean on)
    unfolding mirror_clock_mode
    mirror_clock_mode-value p w true e h on = ground (arith, set_clock_use_24h-value true w)
    mirror_clock_mode-value p w false e h on = ground (arith, set_clock_use_24h-value false w)

    same_flag_refl : (b : Bool) → same_flag c d files (some b) b ≡ true
    same_flag_refl true = refl
    same_flag_refl false = refl

    get_24h :
        (w : W) (b : Bool)
        → settings_new d ≡ true
        → d.get_value use_24h_key w ≡ some (boolean b)
        → same_flag c d files (get_boolean d true (some use_24h_key) w) b ≡ true
    unfolding settings_new get_boolean has_key
    get_24h w b installed e = ground (arith, same_flag_refl b)

    get_seconds :
        (w : W) (b : Bool)
        → settings_new d ≡ true
        → d.get_value show_seconds_key w ≡ some (boolean b)
        → same_flag c d files (get_boolean d true (some show_seconds_key) w) b ≡ true
    unfolding settings_new get_boolean has_key
    get_seconds w b installed e = ground (arith, same_flag_refl b)

    mirrored-seconds :
        (p : Policy D) (w : W)
        → settings_new d ≡ true
        → (mirror_cinnamon_compatibility c d files p w).1 ≡ true
        → d.get_value show_seconds_key (mirror_cinnamon_compatibility c d files p w).0
          ≡ some (boolean p.show_seconds)
    unfolding mirror_cinnamon_compatibility
    mirrored-seconds p w installed e =
        let w1 = (mirror_clock_mode c d files p w).0 in
        let w2 = (d.set_flag show_seconds_key p.show_seconds w1).0 in
        ground (
          arith,
          l.set_flag-value show_seconds_key p.show_seconds w1,
          l.sync-value show_seconds_key w2,
        )

    mirrored-24h :
        (p : Policy D) (w : W)
        → settings_new d ≡ true
        → (mirror_cinnamon_compatibility c d files p w).1 ≡ true
        → (is_24h p || is_12h p) ≡ true
        → d.get_value use_24h_key (mirror_cinnamon_compatibility c d files p w).0
          ≡ some (boolean (is_24h p))
    unfolding mirror_cinnamon_compatibility
    mirrored-24h p w installed e conventional =
        let w1 = (mirror_clock_mode c d files p w).0 in
        let w2 = (d.set_flag show_seconds_key p.show_seconds w1).0 in
        ground (
          arith,
          mirror_clock_mode-value p w (is_24h p),
          l.set_seconds-24h p.show_seconds w1,
          l.sync-value use_24h_key w2,
        )

    -- A mirror that reports success leaves the desktop in agreement with the policy, or Cinnamon's
    -- settings are not installed, which agrees with every policy.
    pub mirror-compatibility_matches :
        (p : Policy D) (w : W)
        → (mirror_cinnamon_compatibility c d files p w).1 ≡ true
        → platform_compatibility_matches c d files p (mirror_cinnamon_compatibility c d files p w).0
          ≡ true
    unfolding platform_compatibility_matches
    mirror-compatibility_matches p w e = elim (Bool-cases (settings_new d)) [
      | inr absent ↦ ground arith
      | inl installed ↦
          let w' = (mirror_cinnamon_compatibility c d files p w).0 in
          let seconds =
            get_seconds w' p.show_seconds installed (mirrored-seconds p w installed e) in
          elim (Bool-cases (is_24h p || is_12h p)) [
            | inr extended ↦ ground arith
            | inl conventional ↦
                let hours =
                  get_24h w' (is_24h p) installed (mirrored-24h p w installed e conventional) in
                ground arith
          ]
    ]
