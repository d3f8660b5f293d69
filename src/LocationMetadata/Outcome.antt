-- ===== src/LocationMetadata/Outcome.antt =====
-- What finishing a journal and recovering do to the two records.
use system_settings.LocationMetadata.Defs.{
  MetadataFile, committed, pending, Metadata, no_entry, LoadStatus, ok, missing, invalid, io_error,
  MetadataSystem, metadata_load, metadata_save, finish_staged,
}
use system_settings.LocationMetadata.Files.{LawfulFiles, other}
use system_settings.LocationMetadata.Recovery.{coordinate_close}
use system_settings.LocationMetadata.RoundTrip.{
  same_read-load, metadata_save-Saved, Saved-true, Saved-false,
}
use system_settings.Policy.{Policy}
use system_settings.Prelude.{
  Bool, false, true, not, Option, Double, if◌then◌else◌, ◌≡◌, ◌⊎◌, inl, inr, refl, ◌∙◌, arith,
  Bool-cases,
}

-- The staged coordinates are those of the policy, to within a millionth of a degree.
abbrev pub Matches : {D : Type 0} → Double D → Metadata D → Policy D → Type 0
Matches f v p =
    (coordinate_close f v.latitude p.latitude ≡ true)
    × (coordinate_close f v.longitude p.longitude ≡ true)

module _ {D W : Type 0} (f : Double D) (sys : MetadataSystem D W)
    (policy : W → Option (Policy D × Bool)) (l : LawfulFiles sys policy) where
  abbrev pub record_in : MetadataFile → W → LoadStatus D
  record_in file w = metadata_load f sys file w

  removed-load :
      (file : MetadataFile) (w : W) → sys.read_keys file w ≡ no_entry → record_in file w ≡ missing
  unfolding metadata_load
  removed-load file w e = rw (e, metadata_load) refl

  pub data Removed (file : MetadataFile) (w w' : W) : Bool → Type 0 where
    gone : record_in file w' ≡ missing → Removed file w w' true
    unsure :
        (record_in file w' ≡ record_in file w) ⊎ (record_in file w' ≡ missing)
        → Removed file w w' false

  pub unlink-Removed :
      (file : MetadataFile) (w : W)
      → Removed file w (sys.unlink file w).0 (sys.unlink file w).1
        × (record_in (other file) (sys.unlink file w).0 ≡ record_in (other file) w)
        × (policy (sys.unlink file w).0 ≡ policy w)
  unlink-Removed file w = (
    elim (Bool-cases (sys.unlink file w).1) [
      | inl y ↦ rw y (gone (removed-load file _ (l.unlink-read file w y)))
      | inr n ↦ rw n (unsure (failed (l.unlink_failed-read file w n)))
    ],
    same_read-load f sys policy l (other file) _ w (others file),
    l.unlink-policy file w,
  )
    where
      failed :
          (sys.read_keys file (sys.unlink file w).0 ≡ sys.read_keys file w)
            ⊎ (sys.read_keys file (sys.unlink file w).0 ≡ no_entry)
          → (record_in file (sys.unlink file w).0 ≡ record_in file w)
            ⊎ (record_in file (sys.unlink file w).0 ≡ missing)
      failed (inl e) = inl (same_read-load f sys policy l file _ w e)
      failed (inr e) = inr (removed-load file _ e)

      others :
          (g : MetadataFile)
          → sys.read_keys (other g) (sys.unlink g w).0 ≡ sys.read_keys (other g) w
      others committed = l.unlink_committed-pending w
      others pending = l.unlink_pending-committed w

  pub Removed-true :
      {file : MetadataFile} {w w' : W} {done : Bool}
      → Removed file w w' done
      → done ≡ true
      → record_in file w' ≡ missing
  Removed-true (gone e) is_true = e
  Removed-true (unsure e) is_true = cc

  -- A removal leaves the record or makes it missing.
  Removed-or :
      {file : MetadataFile} {w w' : W} {done : Bool} {s : LoadStatus D}
      → Removed file w w' done
      → record_in file w ≡ s
      → (record_in file w' ≡ missing) ⊎ (record_in file w' ≡ s)
  Removed-or (gone e) h = inl e
  Removed-or (unsure (inl e)) h = inr (e ∙ h)
  Removed-or (unsure (inr e)) h = inl e

  pub LoadStatus-cases :
      (s : LoadStatus D)
      → ((v : Metadata D) × (s ≡ ok v)) ⊎ (s ≡ missing) ⊎ (s ≡ invalid) ⊎ (s ≡ io_error)
  LoadStatus-cases (ok v) = inl (v, refl)
  LoadStatus-cases _ = ground arith

  pub data Finished (w w' : W) : Bool → Type 0 where
    finished :
        (v : Metadata D)
        → record_in pending w ≡ ok v
        → record_in committed w' ≡ ok v
        → (record_in pending w' ≡ missing) ⊎ (record_in pending w' ≡ ok v)
        → Finished w w' true
    unfinished :
        record_in committed w' ≡ record_in committed w
        → record_in pending w' ≡ record_in pending w
        → Finished w w' false

  -- Finishing a journal either publishes exactly the staged record, with the journal removed or left
  -- to be finished again, or leaves both records; the policy stays.
  pub finish_staged-Finished :
      (w : W)
      → Finished w (finish_staged f sys w).0 (finish_staged f sys w).1
        × (policy (finish_staged f sys w).0 ≡ policy w)
  unfolding finish_staged
  finish_staged-Finished w = elim (LoadStatus-cases (record_in pending w)) [
    | inl (v, e) ↦ rw (e, finish_staged) (publish v e)
    | inr (inl e) ↦ rw (e, finish_staged) (unfinished refl refl, refl)
    | inr (inr (inl e)) ↦ rw (e, finish_staged) (unfinished refl refl, refl)
    | inr (inr (inr e)) ↦ rw (e, finish_staged) (unfinished refl refl, refl)
  ]
    where
      publish :
          (v : Metadata D)
          → record_in pending w ≡ ok v
          → (let r : W × Bool =
                if not (metadata_save f sys committed v w).1
                then ((metadata_save f sys committed v w).0, false)
                else ((sys.unlink pending (metadata_save f sys committed v w).0).0, true) in
              Finished w r.0 r.1 × (policy r.0 ≡ policy w))
      publish v e =
          let s = metadata_save-Saved f sys policy l committed v w in
          let u = unlink-Removed pending (metadata_save f sys committed v w).0 in
          elim (Bool-cases (metadata_save f sys committed v w).1) [
            | inr n ↦ rw n (unfinished (Saved-false f sys policy l s.0 n) s.1, s.2)
            | inl y ↦ rw y (
              finished v e (u.1 ∙ Saved-true f sys policy l s.0 y) (Removed-or u.0 (s.1 ∙ e)),
              u.2 ∙ s.2,
            )
          ]
