-- ===== src/LocationMetadata/Untouched.antt =====
-- The operations on the records leave a count alone that their primitives leave alone; the locks.
use system_settings.DateTimeModel.Backend.{Backend}
use system_settings.LocationMetadata.Defs.{
  MetadataFile, committed, pending, Metadata, LoadStatus, ok, missing, invalid, io_error,
  MetadataSystem, keys_of, metadata_load, metadata_save, publish_data, finish_staged,
}
use system_settings.Policy.{Policy}
use system_settings.Prelude.{
  ℕ, ◌+◌, ◌-◌, false, true, Bytes, Double, ◌≡◌, inl, inr, refl, arith, Option-cases,
}

-- The policy document is not one of the two files.
pub record Apart {D W : Type 0} (sys : MetadataSystem D W) (b : Backend D W) : Type 0 where
  pub write-keys :
      (p : Policy D) (file : MetadataFile) (w : W)
      → sys.read_keys file (b.write p w).0 ≡ sys.read_keys file w
  pub remove-keys :
      (file : MetadataFile) (w : W) → sys.read_keys file (b.remove w).0 ≡ sys.read_keys file w
  pub lock-keys :
      (file : MetadataFile) (w : W) → sys.read_keys file (b.lock w).0 ≡ sys.read_keys file w
  pub unlock-keys :
      (file : MetadataFile) (w : W) → sys.read_keys file (b.unlock w) ≡ sys.read_keys file w

-- A count that no operation on the files or the document changes.
pub record Untouched {D W : Type 0} (sys : MetadataSystem D W) (b : Backend D W) (count : W → ℕ)
    : Type 0 where
  pub write-count :
      (file : MetadataFile) (text : Bytes) (w : W) → count (sys.write file text w).0 ≡ count w
  pub unlink-count : (file : MetadataFile) (w : W) → count (sys.unlink file w).0 ≡ count w
  pub mkdir-count : (w : W) → count (sys.mkdir w).0 ≡ count w
  pub chmod-count : (w : W) → count (sys.chmod w).0 ≡ count w
  pub save-count : (p : Policy D) (w : W) → count (b.write p w).0 ≡ count w
  pub remove-count : (w : W) → count (b.remove w).0 ≡ count w

-- How often the two locks are held; each leaves the other alone.
pub record LawfulLocks {D W : Type 0} (sys : MetadataSystem D W) (b : Backend D W) : Type 0 where
  pub held : W → ℕ
  pub untouched : Untouched sys b held
  pub policy_untouched : Untouched sys b b.held
  pub lock-held : (w : W) → (sys.lock w).1 ≡ true → held (sys.lock w).0 ≡ held w + 1
  pub lock_failed-held : (w : W) → (sys.lock w).1 ≡ false → held (sys.lock w).0 ≡ held w
  pub unlock-held : (w : W) → held (sys.unlock w) ≡ held w - 1
  pub policy_lock-held : (w : W) → held (b.lock w).0 ≡ held w
  pub policy_unlock-held : (w : W) → held (b.unlock w) ≡ held w
  pub lock-policy_held : (w : W) → b.held (sys.lock w).0 ≡ b.held w
  pub unlock-policy_held : (w : W) → b.held (sys.unlock w) ≡ b.held w

module _ {D W : Type 0} (f : Double D) (sys : MetadataSystem D W) (b : Backend D W) (count : W → ℕ)
    (u : Untouched sys b count) where
  publish_data-count :
      (file : MetadataFile) (text : Bytes) (w : W)
      → count (publish_data f sys file text w).0 ≡ count w
  unfolding publish_data
  publish_data-count file text w =
      let w1 = (sys.mkdir w).0 in
      let w2 = (sys.chmod w1).0 in
      ground (arith, u.mkdir-count w, u.chmod-count w1, u.write-count file text w2)

  pub metadata_save-count :
      (file : MetadataFile) (v : Metadata D) (w : W)
      → count (metadata_save f sys file v w).0 ≡ count w
  unfolding metadata_save
  metadata_save-count file v w = elim (Option-cases (sys.to_data (keys_of f sys v))) [
    | inl n ↦ ground arith
    | inr (text, e) ↦ ground (arith, publish_data-count file text w)
  ]

  loaded-count :
      (w : W) (s : LoadStatus D)
      → metadata_load f sys pending w ≡ s
      → count (finish_staged f sys w).0 ≡ count w
  unfolding finish_staged
  loaded-count w (ok v) e =
      let w1 = (metadata_save f sys committed v w).0 in
      ground (arith, metadata_save-count committed v w, u.unlink-count pending w1)
  loaded-count w missing e = ground arith
  loaded-count w invalid e = ground arith
  loaded-count w io_error e = ground arith

  pub finish_staged-count : (w : W) → count (finish_staged f sys w).0 ≡ count w
  finish_staged-count w = loaded-count w _ refl
