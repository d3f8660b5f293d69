-- ===== src/LocationMetadata/Files.antt =====
-- What the metadata relies on in the file system, and what each operation then does to the two records.
use system_settings.LocationMetadata.Defs.{
  MetadataFile, committed, pending, Metadata, KeyFile, loaded, no_entry, ok, MetadataSystem,
  metadata_valid, metadata_of_keys, keys_of, publish_data,
}
use system_settings.Policy.{Policy}
use system_settings.Prelude.{Bool, false, true, Option, some, Bytes, Double, ◌≡◌, ◌⊎◌, arith}

-- A successful write is read back as the keys that were set, a failed one leaves the file, a removed
-- file is missing, and a removal that fails may or may not have removed it; no call touches another
-- file or the policy, which `policy` reads.
pub record LawfulFiles {D W : Type 0} (sys : MetadataSystem D W)
    (policy : W → Option (Policy D × Bool)) : Type 0 where
  pub write-read :
      (file : MetadataFile) (k : KeyFile D) (text : Bytes) (w : W)
      → sys.to_data k ≡ some text
      → (sys.write file text w).1 ≡ true
      → sys.read_keys file (sys.write file text w).0 ≡ loaded k
  pub write_failed-read :
      (file : MetadataFile) (text : Bytes) (w : W)
      → (sys.write file text w).1 ≡ false
      → sys.read_keys file (sys.write file text w).0 ≡ sys.read_keys file w
  pub write_committed-pending :
      (text : Bytes) (w : W)
      → sys.read_keys pending (sys.write committed text w).0 ≡ sys.read_keys pending w
  pub write_pending-committed :
      (text : Bytes) (w : W)
      → sys.read_keys committed (sys.write pending text w).0 ≡ sys.read_keys committed w
  pub unlink-read :
      (file : MetadataFile) (w : W)
      → (sys.unlink file w).1 ≡ true
      → sys.read_keys file (sys.unlink file w).0 ≡ no_entry
  pub unlink_failed-read :
      (file : MetadataFile) (w : W)
      → (sys.unlink file w).1 ≡ false
      → (sys.read_keys file (sys.unlink file w).0 ≡ sys.read_keys file w)
        ⊎ (sys.read_keys file (sys.unlink file w).0 ≡ no_entry)
  pub unlink_committed-pending :
      (w : W) → sys.read_keys pending (sys.unlink committed w).0 ≡ sys.read_keys pending w
  pub unlink_pending-committed :
      (w : W) → sys.read_keys committed (sys.unlink pending w).0 ≡ sys.read_keys committed w
  pub mkdir-read :
      (file : MetadataFile) (w : W) → sys.read_keys file (sys.mkdir w).0 ≡ sys.read_keys file w
  pub chmod-read :
      (file : MetadataFile) (w : W) → sys.read_keys file (sys.chmod w).0 ≡ sys.read_keys file w
  pub lock-read :
      (file : MetadataFile) (w : W) → sys.read_keys file (sys.lock w).0 ≡ sys.read_keys file w
  pub unlock-read :
      (file : MetadataFile) (w : W) → sys.read_keys file (sys.unlock w) ≡ sys.read_keys file w
  pub write-policy :
      (file : MetadataFile) (text : Bytes) (w : W) → policy (sys.write file text w).0 ≡ policy w
  pub unlink-policy : (file : MetadataFile) (w : W) → policy (sys.unlink file w).0 ≡ policy w
  pub mkdir-policy : (w : W) → policy (sys.mkdir w).0 ≡ policy w
  pub chmod-policy : (w : W) → policy (sys.chmod w).0 ≡ policy w
  pub lock-policy : (w : W) → policy (sys.lock w).0 ≡ policy w
  pub unlock-policy : (w : W) → policy (sys.unlock w) ≡ policy w

abbrev pub other : MetadataFile → MetadataFile
other committed = pending
other pending = committed

module _ {D W : Type 0} (f : Double D) (sys : MetadataSystem D W)
    (policy : W → Option (Policy D × Bool)) (l : LawfulFiles sys policy) where
  write_other-read :
      (file : MetadataFile) (text : Bytes) (w : W)
      → sys.read_keys (other file) (sys.write file text w).0 ≡ sys.read_keys (other file) w
  write_other-read committed text w = l.write_committed-pending text w
  write_other-read pending text w = l.write_pending-committed text w

  -- A valid record is read back from the keys that are set for it.
  pub metadata_of_keys-keys_of :
      (v : Metadata D)
      → metadata_valid f sys v ≡ true
      → metadata_of_keys f sys (keys_of f sys v) ≡ ok v
  unfolding metadata_of_keys metadata_valid
  metadata_of_keys-keys_of v h = ground arith

  pub publish_data-read :
      (file : MetadataFile) (text : Bytes) (w : W)
      → (sys.read_keys (other file) (publish_data f sys file text w).0
          ≡ sys.read_keys (other file) w)
        × (policy (publish_data f sys file text w).0 ≡ policy w)
  unfolding publish_data
  publish_data-read file text w =
      let w1 = (sys.mkdir w).0 in
      let w2 = (sys.chmod w1).0 in
      (
        ground (
          arith,
          l.mkdir-read (other file) w,
          l.chmod-read (other file) w1,
          write_other-read file text w2,
        ),
        ground (arith, l.mkdir-policy w, l.chmod-policy w1, l.write-policy file text w2),
      )
