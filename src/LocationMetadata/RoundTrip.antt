-- ===== src/LocationMetadata/RoundTrip.antt =====
-- Saving, staging, finishing and removing as changes of the two records.
use system_settings.LocationMetadata.Defs.{
  MetadataFile, Metadata, KeyFile, loaded, ok, MetadataSystem, metadata_valid, metadata_of_keys,
  metadata_load, keys_of, publish_data, metadata_save,
}
use system_settings.LocationMetadata.Files.{
  LawfulFiles, other, metadata_of_keys-keys_of, publish_data-read,
}
use system_settings.Policy.{Policy}
use system_settings.Prelude.{
  Bool, false, true, Option, some, Bytes, Double, ◌≡◌, inl, inr, refl, ◌∙◌, arith, Option-cases,
  Bool-cases,
}

module _ {D W : Type 0} (f : Double D) (sys : MetadataSystem D W)
    (policy : W → Option (Policy D × Bool)) (l : LawfulFiles sys policy) where
  pub same_read-load :
      (file : MetadataFile) (v w : W)
      → sys.read_keys file v ≡ sys.read_keys file w
      → metadata_load f sys file v ≡ metadata_load f sys file w
  unfolding metadata_load
  same_read-load file v w e = rw (e, metadata_load) refl

  loaded-load :
      (file : MetadataFile) (w : W) {k : KeyFile D}
      → sys.read_keys file w ≡ loaded k
      → metadata_load f sys file w ≡ metadata_of_keys f sys k
  unfolding metadata_load
  loaded-load file w e = rw (e, metadata_load) refl

  publish_data-made :
      (v : Metadata D) (file : MetadataFile) (text : Bytes) (w : W)
      → sys.to_data (keys_of f sys v) ≡ some text
      → (publish_data f sys file text w).1 ≡ true
      → sys.read_keys file (publish_data f sys file text w).0 ≡ loaded (keys_of f sys v)
  unfolding publish_data
  publish_data-made v file text w is_text e =
      let w2 = (sys.chmod (sys.mkdir w).0).0 in
      ground (arith, l.write-read file (keys_of f sys v) text w2)

  publish_data-failed :
      (file : MetadataFile) (text : Bytes) (w : W)
      → (publish_data f sys file text w).1 ≡ false
      → sys.read_keys file (publish_data f sys file text w).0 ≡ sys.read_keys file w
  unfolding publish_data
  publish_data-failed file text w e =
      let w1 = (sys.mkdir w).0 in
      let w2 = (sys.chmod w1).0 in
      ground (arith, l.mkdir-read file w, l.chmod-read file w1, l.write_failed-read file text w2)

  -- What a save did to its own record.
  pub data Saved (file : MetadataFile) (v : Metadata D) (w w' : W) : Bool → Type 0 where
    saved :
        metadata_valid f sys v ≡ true → metadata_load f sys file w' ≡ ok v → Saved file v w w' true
    unsaved : metadata_load f sys file w' ≡ metadata_load f sys file w → Saved file v w w' false

  -- A save that succeeds makes its record load as exactly the metadata that was saved, which was valid; a
  -- save that fails leaves the record. The other record and the policy stay in either case.
  pub metadata_save-Saved :
      (file : MetadataFile) (v : Metadata D) (w : W)
      → Saved file v w (metadata_save f sys file v w).0 (metadata_save f sys file v w).1
        × (metadata_load f sys (other file) (metadata_save f sys file v w).0
            ≡ metadata_load f sys (other file) w)
        × (policy (metadata_save f sys file v w).0 ≡ policy w)
  unfolding metadata_save
  metadata_save-Saved file v w = elim (Bool-cases (metadata_valid f sys v)) [
    | inr n ↦ rw (n, metadata_save) (unsaved refl, refl, refl)
    | inl y ↦ elim (Option-cases (sys.to_data (keys_of f sys v))) [
      | inl n ↦ rw (y, n, metadata_save) (unsaved refl, refl, refl)
      | inr (text, is_text) ↦
          let p = publish_data-read f sys policy l file text w in
          rw (y, is_text, metadata_save)
            (own y text is_text, same_read-load (other file) _ w p.0, p.1)
    ]
  ]
    where
      own :
          metadata_valid f sys v ≡ true
          → (text : Bytes) → sys.to_data (keys_of f sys v) ≡ some text
          → Saved file v w (publish_data f sys file text w).0 (publish_data f sys file text w).1
      own y text is_text = elim (Bool-cases (publish_data f sys file text w).1) [
        | inl done ↦ rw done (
            saved y (
              loaded-load file _ (publish_data-made v file text w is_text done)
              ∙ metadata_of_keys-keys_of f sys policy l v y))
        | inr failed ↦
            rw failed (unsaved (same_read-load file _ w (publish_data-failed file text w failed)))
      ]

  pub Saved-true :
      {file : MetadataFile} {v : Metadata D} {w w' : W} {done : Bool}
      → Saved file v w w' done
      → done ≡ true
      → metadata_load f sys file w' ≡ ok v
  Saved-true (saved valid e) is_true = e
  Saved-true (unsaved e) is_true = cc

  pub Saved-false :
      {file : MetadataFile} {v : Metadata D} {w w' : W} {done : Bool}
      → Saved file v w w' done
      → done ≡ false
      → metadata_load f sys file w' ≡ metadata_load f sys file w
  Saved-false (saved valid e) is_false = cc
  Saved-false (unsaved e) is_false = e
