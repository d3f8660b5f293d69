-- ===== src/SettingsCommand/Publishing.antt =====
-- What the save, the metadata and the rollback of a command do to the policy and the records.
use system_settings.DateTimeModel.Backend.{Backend, Lawful}
use system_settings.LocationMetadata.Defs.{
  MetadataFile, committed, pending, Metadata, ok, missing, MetadataSystem, discard_staged,
}
use system_settings.LocationMetadata.Files.{LawfulFiles}
use system_settings.LocationMetadata.Outcome.{unlink-Removed}
use system_settings.LocationMetadata.Untouched.{Apart}
use system_settings.Policy.{Policy, Common, Store}
use system_settings.Prelude.{
  Bool, false, true, ◌&&◌, not, Option, none, some, Bytes, Double, if◌then◌else◌, ◌≡◌, ◌⊎◌, inl,
  inr, refl, sym, ◌∙◌, ap, arith, Bool-cases,
}
use system_settings.SettingsCommand.Main.{commit_metadata, publish, Run}
use system_settings.SettingsCommand.Options.{Staged}
use mathlib.Core.Path.{subst}
use system_settings.SettingsCommand.RollingBack.{
  store_with, Applied, Metadated, Restored, Same, at, commit_metadata-Metadated, roll_back-Restored,
  same_keys-load, unasked, placed, removed, applied, unapplied, restored, unrestored,
}

module _ {D W : Type 0} (c : Common D) (f : Double D) (sys : MetadataSystem D W)
    (parse_double_range : Bytes → D → D → Option D) (b : Backend D W)
    (compatible : Option (Policy D → W → Bool)) (l : LawfulFiles sys b.read) (lb : Lawful b)
    (apart : Apart sys b) where
  abbrev platform : Option (Store D W)
  platform = some (store_with b compatible)

  -- How a command that has come to its save ends, from the world in which the journal is in place.
  pub data Published (p0 : Policy D) (persisted : Bool) (t : Staged D) (p : Policy D)
      (v : Metadata D) (w : W) (r : Run D W) : Type 0 where
    succeeded :
        r.exit_code ≡ 0
        → r.output ≡ some (p, true)
        → b.read r.world ≡ some (p, true)
        → Applied c f sys parse_double_range b compatible l lb apart t.change_requested
            t.clear_requested v w r.world
        → Published p0 persisted t p v w r
    unsaved :
        r.exit_code ≡ 2
        → r.output ≡ none
        → Same c f sys parse_double_range b compatible l lb apart w r.world
        → Published p0 persisted t p v w r
    incompatible_desktop :
        r.exit_code ≡ 3
        → r.output ≡ none
        → b.read r.world ≡ some (p, true)
        → Applied c f sys parse_double_range b compatible l lb apart t.change_requested
            t.clear_requested v w r.world
        → Published p0 persisted t p v w r
    undone :
        (q : Policy D)
        → r.exit_code ≡ 3
        → r.output ≡ none
        → b.read r.world ≡ some (q, persisted)
        → (persisted ≡ false) ⊎ (q ≡ p0)
        → (at c f sys parse_double_range b compatible l lb apart committed r.world
            ≡ at c f sys parse_double_range b compatible l lb apart committed w)
          ⊎ ((t.clear_requested ≡ true)
              × (at c f sys parse_double_range b compatible l lb apart committed r.world ≡ missing))
        → Published p0 persisted t p v w r
    to_recover :
        r.exit_code ≡ 3
        → r.output ≡ none
        → (b.read r.world ≡ some (p, true))
          ⊎ ((persisted ≡ false) × ((q : Policy D) × (b.read r.world ≡ some (q, false))))
        → (at c f sys parse_double_range b compatible l lb apart committed r.world
            ≡ at c f sys parse_double_range b compatible l lb apart committed w)
          ⊎ ((t.clear_requested ≡ true)
              × (at c f sys parse_double_range b compatible l lb apart committed r.world ≡ missing))
        → (t.clear_requested ≡ true)
          ⊎ (at c f sys parse_double_range b compatible l lb apart pending r.world ≡ ok v)
        → Published p0 persisted t p v w r

  Applied-from :
      {requested cleared : Bool} {v : Metadata D} (u w w' : W)
      → at c f sys parse_double_range b compatible l lb apart committed u
        ≡ at c f sys parse_double_range b compatible l lb apart committed w
      → Applied c f sys parse_double_range b compatible l lb apart requested cleared v u w'
      → Applied c f sys parse_double_range b compatible l lb apart requested cleared v w w'
  Applied-from u w w' e (unasked r s) = unasked r (s ∙ e)
  Applied-from u w w' e (placed r k s) = placed r k s
  Applied-from u w w' e (removed r k s) = removed r k s

  module _ (p0 : Policy D) (persisted : Bool) (t : Staged D) (p : Policy D) (v : Metadata D)
      (w : W) where
    abbrev run : Run D W
    run = publish c f sys parse_double_range platform p0 persisted t p w

    abbrev w1 : W
    w1 = (b.write p w).0

    abbrev w3 : W
    w3 =
        (commit_metadata c f sys parse_double_range platform t.change_requested t.clear_requested
          w1).0

    written :
        (file : MetadataFile)
        → at c f sys parse_double_range b compatible l lb apart file w1
          ≡ at c f sys parse_double_range b compatible l lb apart file w
    written file =
        same_keys-load c f sys parse_double_range b compatible l lb apart file w1 w
          (apart.write-keys p file w)

    discarded-Same :
        (staged : Bool)
        → (b.write p w).1 ≡ false
        → Same c f sys parse_double_range b compatible l lb apart w
            (if staged then (discard_staged f sys w1).0 else w1)
    discarded-Same true n =
        let u = unlink-Removed f sys b.read l pending w1 in
        (u.2 ∙ lb.write_failed-read p w n, u.1 ∙ written committed)
    discarded-Same false n = (lb.write_failed-read p w n, written committed)

    rolled-Published :
        (b.write p w).1 ≡ true
        → (commit_metadata c f sys parse_double_range platform t.change_requested t.clear_requested
            w1).1
          ≡ false
        → b.read w3 ≡ some (p, true)
        → (at c f sys parse_double_range b compatible l lb apart committed w3
            ≡ at c f sys parse_double_range b compatible l lb apart committed w)
          ⊎ ((t.clear_requested ≡ true)
              × (at c f sys parse_double_range b compatible l lb apart committed w3 ≡ missing))
        → (t.clear_requested ≡ true)
          ⊎ (at c f sys parse_double_range b compatible l lb apart pending w3 ≡ ok v)
        → (w4 : W) (done : Bool) → run.world ≡ w4
        → Restored c f sys parse_double_range b compatible l lb apart p0 persisted w3 w4 done
        → Published p0 persisted t p v w run
    unfolding publish
    rolled-Published y n r s j w4 true e (restored q k x same) =
        undone q (ground arith) (ground arith) (ap b.read e ∙ k) x (rest s)
      where
        rest :
            (at c f sys parse_double_range b compatible l lb apart committed w3
                ≡ at c f sys parse_double_range b compatible l lb apart committed w)
              ⊎ ((t.clear_requested ≡ true)
                  × (at c f sys parse_double_range b compatible l lb apart committed w3 ≡ missing))
            → (at c f sys parse_double_range b compatible l lb apart committed run.world
                ≡ at c f sys parse_double_range b compatible l lb apart committed w)
              ⊎ ((t.clear_requested ≡ true)
                  × (at c f sys parse_double_range b compatible l lb apart committed run.world
                      ≡ missing))
        rest (inl z) =
            inl (ap (at c f sys parse_double_range b compatible l lb apart committed) e ∙ same ∙ z)
        rest (inr (k, z)) =
            inr
              (k, ap (at c f sys parse_double_range b compatible l lb apart committed) e ∙ same ∙ z)
    rolled-Published y n r s j w4 false e (unrestored k same journal) =
        to_recover (ground arith) (ground arith) (stored k) (rest s) (journalled j)
      where
        stored :
            (b.read w4 ≡ b.read w3)
              ⊎ ((persisted ≡ false) × ((q : Policy D) × (b.read w4 ≡ some (q, false))))
            → (b.read run.world ≡ some (p, true))
              ⊎ ((persisted ≡ false) × ((q : Policy D) × (b.read run.world ≡ some (q, false))))
        stored (inl x) = inl (ap b.read e ∙ x ∙ r)
        stored (inr (x, (q, z))) = inr (x, (q, ap b.read e ∙ z))

        journalled :
            (t.clear_requested ≡ true)
              ⊎ (at c f sys parse_double_range b compatible l lb apart pending w3 ≡ ok v)
            → (t.clear_requested ≡ true)
              ⊎ (at c f sys parse_double_range b compatible l lb apart pending run.world ≡ ok v)
        journalled (inl x) = inl x
        journalled (inr x) =
            inr (ap (at c f sys parse_double_range b compatible l lb apart pending) e ∙ journal ∙ x)

        rest :
            (at c f sys parse_double_range b compatible l lb apart committed w3
                ≡ at c f sys parse_double_range b compatible l lb apart committed w)
              ⊎ ((t.clear_requested ≡ true)
                  × (at c f sys parse_double_range b compatible l lb apart committed w3 ≡ missing))
            → (at c f sys parse_double_range b compatible l lb apart committed run.world
                ≡ at c f sys parse_double_range b compatible l lb apart committed w)
              ⊎ ((t.clear_requested ≡ true)
                  × (at c f sys parse_double_range b compatible l lb apart committed run.world
                      ≡ missing))
        rest (inl z) =
            inl (ap (at c f sys parse_double_range b compatible l lb apart committed) e ∙ same ∙ z)
        rest (inr (k, z)) =
            inr
              (k, ap (at c f sys parse_double_range b compatible l lb apart committed) e ∙ same ∙ z)

    from_w :
        (at c f sys parse_double_range b compatible l lb apart committed w3
            ≡ at c f sys parse_double_range b compatible l lb apart committed w1)
          ⊎ ((t.clear_requested ≡ true)
              × (at c f sys parse_double_range b compatible l lb apart committed w3 ≡ missing))
        → (at c f sys parse_double_range b compatible l lb apart committed w3
            ≡ at c f sys parse_double_range b compatible l lb apart committed w)
          ⊎ ((t.clear_requested ≡ true)
              × (at c f sys parse_double_range b compatible l lb apart committed w3 ≡ missing))
    from_w (inl z) = inl (z ∙ written committed)
    from_w (inr z) = inr z

    saved-Published :
        (t.change_requested ≡ true
          → t.clear_requested ≡ false
          → at c f sys parse_double_range b compatible l lb apart pending w1 ≡ ok v)
        → (b.write p w).1 ≡ true
        → b.read w3 ≡ some (p, true)
        → (done : Bool)
        → (commit_metadata c f sys parse_double_range platform t.change_requested t.clear_requested
            w1).1
          ≡ done
        → Metadated c f sys parse_double_range b compatible l lb apart t.change_requested
            t.clear_requested v w1 w3 done
        → Published p0 persisted t p v w run
    unfolding publish
    saved-Published staged y r true d (applied a) =
        elim (Bool-cases (elim compatible as (λ x. Bool) [ none ↦ true | some test ↦ test p w3 ])) [
          | inl k ↦
              let e : (run.world ≡ w3) = ground arith in
              succeeded (ground arith) (ground arith) (ap b.read e ∙ r) (
                subst
                  (Applied c f sys parse_double_range b compatible l lb apart t.change_requested
                    t.clear_requested v w)
                  (sym e) (Applied-from w1 w w3 (written committed) a))
          | inr k ↦
              let e : (run.world ≡ w3) = ground arith in
              incompatible_desktop (ground arith) (ground arith) (ap b.read e ∙ r) (
                subst
                  (Applied c f sys parse_double_range b compatible l lb apart t.change_requested
                    t.clear_requested v w)
                  (sym e) (Applied-from w1 w w3 (written committed) a))
        ]
    saved-Published staged y r false d (unapplied a j) =
        rolled-Published y d r (from_w a) (journal_of j) _ _ (ground arith) (
          roll_back-Restored c f sys parse_double_range b compatible l lb apart p0 persisted
            (t.change_requested && not t.clear_requested) w3)
      where
        asked : t.change_requested ≡ true
        asked = ground arith

        journal_of :
            (t.clear_requested ≡ true)
              ⊎ (at c f sys parse_double_range b compatible l lb apart pending w3
                  ≡ at c f sys parse_double_range b compatible l lb apart pending w1)
            → (t.clear_requested ≡ true)
              ⊎ (at c f sys parse_double_range b compatible l lb apart pending w3 ≡ ok v)
        journal_of (inl x) = inl x
        journal_of (inr x) = elim (Bool-cases t.clear_requested) [
          | inl k ↦ inl k
          | inr k ↦ inr (x ∙ staged asked k)
        ]

    pub publish-Published :
        (t.change_requested ≡ true
          → t.clear_requested ≡ false
          → at c f sys parse_double_range b compatible l lb apart pending w ≡ ok v)
        → Published p0 persisted t p v w run
    unfolding publish
    publish-Published journal = elim (Bool-cases (b.write p w).1) [
      | inr n ↦
          let staged = t.change_requested && not t.clear_requested in
          unsaved (ground arith) (ground arith) (
            subst (Same c f sys parse_double_range b compatible l lb apart w) (ground arith)
              (discarded-Same staged n))
      | inl y ↦
          let m =
            commit_metadata-Metadated c f sys parse_double_range b compatible l lb apart
              t.change_requested t.clear_requested v w1 (λ r k. written pending ∙ journal r k) in
          saved-Published (λ r k. written pending ∙ journal r k) y (m.1 ∙ lb.write-read p w y) _
            refl (m.0)
    ]
