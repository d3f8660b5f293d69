-- ===== src/SettingsCommand/Reporting.antt =====
-- What the exit code of a command tells.
use system_settings.DateTimeModel.Backend.{Backend, Lawful}
use system_settings.DateTimeModel.Defs.{Private, Model}
use system_settings.DateTimeModel.Updates.{init, reload_in, clear}
use system_settings.DateTimeModel.Defs.{release_update_lock}
use system_settings.LocationMetadata.Defs.{MetadataSystem}
use system_settings.LocationMetadata.Files.{LawfulFiles}
use system_settings.LocationMetadata.Untouched.{Apart}
use system_settings.Policy.{Policy, Common, Store}
use system_settings.Prelude.{
  Bool, false, true, Option, none, some, Bytes, Double, ◌≡◌, inl, inr, refl, arith, Option-cases,
}
use system_settings.SettingsCommand.Main.{release_locality_transaction, release_platform_update}
use system_settings.SettingsCommand.RollingBack.{store_with}
use system_settings.SettingsCommand.Reports.{Reports}

module _ {D W : Type 0} (c : Common D) (f : Double D) (sys : MetadataSystem D W)
    (parse_double_range : Bytes → D → D → Option D) (b : Backend D W)
    (compatible : Option (Policy D → W → Bool)) (l : LawfulFiles sys b.read) (lb : Lawful b)
    (apart : Apart sys b) where
  abbrev platform : Option (Store D W)
  platform = some (store_with b compatible)

  -- How opening the model ends, without a change to the world.
  pub data Opened (w : W) (r : Option (Model D W) × W × Bool) : Type 0 where
    not_opened : r.1 ≡ w → r.2 ≡ false → Opened w r
    opened :
        (m : Model D W) (s : Private D W) (p : Policy D) (found : Bool)
        → b.read w ≡ some (p, found)
        → r ≡ (some m, w, true)
        → m.private ≡ some s
        → s.policy ≡ p
        → s.persisted_policy_present ≡ found
        → s.saving ≡ false
        → Opened w r

  pub init-Opened :
      (allocated : Bool) (m : Model D W) (w : W)
      → m.private ≡ none
      → Opened w (init c allocated (some m) platform w)
  unfolding init reload_in release_update_lock
  init-Opened false m w e = not_opened (ground arith) (ground arith)
  init-Opened true m w e = elim (Option-cases c.policy_default) [
    | inl n ↦ not_opened (ground arith) (ground arith)
    | inr (d, is_d) ↦ elim (Option-cases (b.read w)) [
      | inl n ↦ not_opened (ground arith) (ground arith)
      | inr ((p, found), r) ↦
          let s : Private D W = record {
            policy = p;
            store = some (store_with b compatible);
            persisted_policy_present = found;
            saving = false;
          } in
          opened (record m { private = some s }) s p found r (ground arith) refl refl refl refl
    ]
  ]

  pub clear-world :
      (m : Model D W) (s : Private D W) (w : W)
      → m.private ≡ some s
      → s.saving ≡ false
      → (clear m w).1 ≡ w
  unfolding clear release_update_lock
  clear-world m s w e n = ground arith

  -- The end of a run gives back the two locks, if they are held.
  abbrev unlocked : Bool → Bool → W → W
  unlocked locality platform_locked w =
      release_locality_transaction c f sys parse_double_range platform locality
        (release_platform_update c f sys parse_double_range platform platform_locked w)
