-- ===== src/SettingsCommand/RollingBack.antt =====
-- What the commit of the metadata and a rollback do to the policy and the committed record.
use system_settings.DateTimeModel.Backend.{Backend, Lawful, store_of}
use system_settings.LocationMetadata.Defs.{
  MetadataFile, committed, pending, Metadata, LoadStatus, ok, missing, MetadataSystem,
  metadata_load, discard_staged,
}
use system_settings.LocationMetadata.Files.{LawfulFiles}
use system_settings.LocationMetadata.Outcome.{
  Removed, gone, unsure, unlink-Removed, Finished, finished, unfinished, finish_staged-Finished,
}
use system_settings.LocationMetadata.RoundTrip.{same_read-load}
use system_settings.LocationMetadata.Untouched.{Apart}
use system_settings.Policy.{Policy, Common, Store}
use system_settings.Prelude.{
  Bool, false, true, ◌&&◌, Option, some, Bytes, Double, if◌then◌else◌, ◌≡◌, ◌⊎◌, inl, inr, refl,
  ◌∙◌, ap, Bool-cases,
}
use system_settings.SettingsCommand.Main.{commit_metadata, roll_back}

-- the store with its test of the desktop
abbrev pub store_with : {D W : Type 0} → Backend D W → Option (Policy D → W → Bool) → Store D W
store_with b compatible = record (store_of b) { compatibility_matches = compatible }

module _ {D W : Type 0} (c : Common D) (f : Double D) (sys : MetadataSystem D W)
    (parse_double_range : Bytes → D → D → Option D) (b : Backend D W)
    (compatible : Option (Policy D → W → Bool)) (l : LawfulFiles sys b.read) (lb : Lawful b)
    (apart : Apart sys b) where
  abbrev pub at : MetadataFile → W → LoadStatus D
  at file w = metadata_load f sys file w

  abbrev platform : Option (Store D W)
  platform = some (store_with b compatible)

  -- The policy and the committed record are as before.
  abbrev pub Same : W → W → Type 0
  Same w w' = (b.read w' ≡ b.read w) × (at committed w' ≡ at committed w)

  -- What a command asked of the committed record is done; `v` is what was journalled.
  pub data Applied (requested cleared : Bool) (v : Metadata D) (w w' : W) : Type 0 where
    unasked :
        requested ≡ false → at committed w' ≡ at committed w → Applied requested cleared v w w'
    placed :
        requested ≡ true
        → cleared ≡ false
        → at committed w' ≡ ok v
        → Applied requested cleared v w w'
    removed :
        requested ≡ true
        → cleared ≡ true
        → at committed w' ≡ missing
        → Applied requested cleared v w w'

  pub data Metadated (requested cleared : Bool) (v : Metadata D) (w w' : W) : Bool → Type 0 where
    applied : Applied requested cleared v w w' → Metadated requested cleared v w w' true
    unapplied :
        (at committed w' ≡ at committed w) ⊎ ((cleared ≡ true) × (at committed w' ≡ missing))
        → (cleared ≡ true) ⊎ (at pending w' ≡ at pending w)
        → Metadated requested cleared v w w' false

  pub commit_metadata-Metadated :
      (requested cleared : Bool) (v : Metadata D) (w : W)
      → (requested ≡ true → cleared ≡ false → at pending w ≡ ok v)
      → Metadated requested cleared v w
          (commit_metadata c f sys parse_double_range platform requested cleared w).0
          (commit_metadata c f sys parse_double_range platform requested cleared w).1
        × (b.read (commit_metadata c f sys parse_double_range platform requested cleared w).0
            ≡ b.read w)
  unfolding commit_metadata
  commit_metadata-Metadated false cleared v w journal = (applied (unasked refl refl), refl)
  commit_metadata-Metadated true true v w journal =
      let u = unlink-Removed f sys b.read l committed w in (go u.0, u.2)
    where
      go :
          {w' : W} {done : Bool}
          → Removed f sys b.read l committed w w' done
          → Metadated true true v w w' done
      go (gone e) = applied (removed refl refl e)
      go (unsure (inl e)) = unapplied (inl e) (inl refl)
      go (unsure (inr e)) = unapplied (inr (refl, e)) (inl refl)
  commit_metadata-Metadated true false v w journal =
      let u = finish_staged-Finished f sys b.read l w in (go u.0, u.1)
    where
      go :
          {w' : W} {done : Bool}
          → Finished f sys b.read l w w' done
          → Metadated true false v w w' done
      go (finished x e p j) =
          let staged = journal refl refl in
          let alike : (x ≡ v) = cc in applied (placed refl refl (p ∙ ap ok alike))
      go (unfinished p j) = unapplied (inl p) (inr j)

  -- How a rollback ends: the policy is as it was, an absent document as absent; or it failed, and the
  -- policy stays or, if it was to be removed, may be gone, and the journal stays.
  pub data Restored (p0 : Policy D) (persisted : Bool) (w w' : W) : Bool → Type 0 where
    restored :
        (p : Policy D)
        → b.read w' ≡ some (p, persisted)
        → (persisted ≡ false) ⊎ (p ≡ p0)
        → at committed w' ≡ at committed w
        → Restored p0 persisted w w' true
    unrestored :
        (b.read w' ≡ b.read w)
          ⊎ ((persisted ≡ false) × ((p : Policy D) × (b.read w' ≡ some (p, false))))
        → at committed w' ≡ at committed w
        → at pending w' ≡ at pending w
        → Restored p0 persisted w w' false

  pub same_keys-load :
      (file : MetadataFile) (u w : W)
      → sys.read_keys file u ≡ sys.read_keys file w
      → at file u ≡ at file w
  same_keys-load = same_read-load f sys b.read l

  pub write-Restored :
      (p0 : Policy D) (w : W) → Restored p0 true w (b.write p0 w).0 (b.write p0 w).1
  write-Restored p0 w =
      let same = same_keys-load committed _ w (apart.write-keys p0 committed w) in
      elim (Bool-cases (b.write p0 w).1) [
        | inl y ↦ rw y (restored p0 (lb.write-read p0 w y) (inr refl) same)
        | inr n ↦ rw n (
            unrestored (inl (lb.write_failed-read p0 w n)) same
              (same_keys-load pending _ w (apart.write-keys p0 pending w)))
      ]

  pub remove-Restored : (p0 : Policy D) (w : W) → Restored p0 false w (b.remove w).0 (b.remove w).1
  remove-Restored p0 w =
      let same = same_keys-load committed _ w (apart.remove-keys committed w) in
      elim (Bool-cases (b.remove w).1) [
        | inl y ↦ let (p, e) = lb.remove-read w y in rw y (restored p e (inl refl) same)
        | inr n ↦
            let journal = same_keys-load pending _ w (apart.remove-keys pending w) in
            rw n (
              unrestored
                (elim (lb.remove_failed-read w n) [ inl e ↦ inl e | inr e ↦ inr (refl, e) ]) same
                journal)
      ]

  -- Discarding the journal, which is done only behind a rollback that succeeded, changes neither.
  pub discard-Restored :
      (p0 : Policy D) (persisted staged done : Bool) (w u : W)
      → Restored p0 persisted w u done
      → (let r : W × Bool =
            if done && staged then ((discard_staged f sys u).0, true) else (u, done) in
          Restored p0 persisted w r.0 r.1)
  discard-Restored p0 persisted true true w u (restored p r q same) =
      let t = unlink-Removed f sys b.read l pending u in restored p (t.2 ∙ r) q (t.1 ∙ same)
  discard-Restored p0 persisted false true w u h = h
  discard-Restored p0 persisted true false w u h = h
  discard-Restored p0 persisted false false w u h = h

  pub roll_back-Restored :
      (p0 : Policy D) (persisted staged : Bool) (w : W)
      → Restored p0 persisted w
          (roll_back c f sys parse_double_range platform p0 persisted staged w).0
          (roll_back c f sys parse_double_range platform p0 persisted staged w).1
  unfolding roll_back
  roll_back-Restored p0 true staged w = discard-Restored p0 true staged _ w _ (write-Restored p0 w)
  roll_back-Restored p0 false staged w =
      discard-Restored p0 false staged _ w _ (remove-Restored p0 w)
