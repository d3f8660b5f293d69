-- ===== src/LocationPanel/Placed.antt =====
-- What a change of place can end in, and the facts about its steps.
use system_settings.DateTimeModel.Backend.{Backend, Lawful}
use system_settings.DateTimeModel.Closing.{Restores, Survives, RolledBack, restored, stranded}
use system_settings.DateTimeModel.Defs.{Private, Model}
use system_settings.DateTimeModel.Edits.{assign_location}
use system_settings.DateTimeModel.Location.{IsOpen}
use system_settings.DateTimeModel.Updates.{LocationUpdate}
use system_settings.LocationMetadata.Defs.{
  MetadataFile, committed, pending, Metadata, LoadStatus, ok, missing, MetadataSystem,
  metadata_load,
}
use system_settings.LocationMetadata.Files.{LawfulFiles}
use system_settings.LocationMetadata.Outcome.{Finished, finished, unfinished}
use system_settings.LocationMetadata.RoundTrip.{same_read-load}
use system_settings.LocationMetadata.Untouched.{Apart, LawfulLocks}
use system_settings.LocationPanel.Commit.{CommitStatus}
use system_settings.LocationPanel.Keys.{Unseen}
use system_settings.LocationPanel.{Panel, with_known}
use system_settings.Policy.{Policy, Common}
use system_settings.Prelude.{
  ℕ, Bool, false, true, Option, none, some, Double, ◌≡◌, ◌⊎◌, inl, inr, ap, ◌∙◌, arith,
}

module _ {D W : Type 0} (c : Common D) (f : Double D) (sys : MetadataSystem D W) (b : Backend D W)
    (l : LawfulFiles sys b.read) (lb : Lawful b) (apart : Apart sys b)
    (locks : LawfulLocks sys b) where
  abbrev pub at : MetadataFile → W → LoadStatus D
  at file w = metadata_load f sys file w

  abbrev pub keys_unseen : (file : MetadataFile) → Unseen b (sys.read_keys file)
  keys_unseen file = record {
    write-unseen = λ p w. apart.write-keys p file w;
    remove-unseen = λ w. apart.remove-keys file w;
    lock-unseen = λ w. apart.lock-keys file w;
    unlock-unseen = λ w. apart.unlock-keys file w;
  }

  pub same_keys :
      (file : MetadataFile) (u w : W)
      → sys.read_keys file u ≡ sys.read_keys file w
      → at file u ≡ at file w
  same_keys = same_read-load f sys b.read l

  -- what the committed record was
  abbrev pub Prior : Option (Metadata D) → W → Type 0
  Prior none w = at committed w ≡ missing
  Prior (some v) w = at committed w ≡ ok v

  -- The panel has the committed record, or none if there is none.
  pub record Knows (q : Panel D W) (w : W) : Type 0 where
    pub when_present : q.location.metadata_present ≡ true → at committed w ≡ ok q.location.metadata
    pub when_absent : q.location.metadata_present ≡ false → at committed w ≡ missing

  -- The policy and the committed record are as before.
  abbrev pub Same : W → W → Type 0
  Same w w' = (b.read w' ≡ b.read w) × (at committed w' ≡ at committed w)

  -- The policy has the new coordinates or, if no document was there, may be gone; and the record is the old
  -- one beside the journal of the new one.
  pub record Interrupted (v : Metadata D) (latitude longitude : D) (w w' : W) : Type 0 where
    pub previous : Policy D
    pub found : Bool
    pub before : b.read w ≡ some (previous, found)
    pub after :
        (b.read w' ≡ some (assign_location true latitude longitude previous, true))
        ⊎ ((found ≡ false) × ((q : Policy D) × (b.read w' ≡ some (q, false))))
    pub record_kept : at committed w' ≡ at committed w
    pub journalled : at pending w' ≡ ok v

  -- The policy has the new coordinates and the record is the new one.
  pub record Changed (v : Metadata D) (latitude longitude : D) (w w' : W) : Type 0 where
    pub previous : Policy D
    pub found : Bool
    pub before : b.read w ≡ some (previous, found)
    pub after : b.read w' ≡ some (assign_location true latitude longitude previous, true)
    pub published : at committed w' ≡ ok v

  pub data Placed (v : Metadata D) (latitude longitude : D) (w : W) (q : Panel D W) (w' : W)
      : CommitStatus → Type 0 where
    no_lock : Same w w' → Placed v latitude longitude w q w' CommitStatus.lock_unavailable
    unread : Same w w' → Placed v latitude longitude w q w' CommitStatus.metadata_unreadable
    no_journal : Same w w' → Knows q w' → Placed v latitude longitude w q w' CommitStatus.unstaged
    no_save : Same w w' → Knows q w' → Placed v latitude longitude w q w' CommitStatus.unsaved
    went_back :
        Restores (b.read w) (b.read w')
        → at committed w' ≡ at committed w
        → Knows q w'
        → Placed v latitude longitude w q w' CommitStatus.restored
    to_recover :
        Interrupted v latitude longitude w w'
        → Knows q w'
        → Placed v latitude longitude w q w' CommitStatus.reloaded
    blind :
        Interrupted v latitude longitude w w'
        → Knows q w'
        → Placed v latitude longitude w q w' CommitStatus.stranded
    placed :
        Changed v latitude longitude w w'
        → Knows q w'
        → Placed v latitude longitude w q w' CommitStatus.saved

  pub with_known-Knows :
      (previous : Option (Metadata D)) (p : Panel D W) (w : W)
      → Prior previous w
      → Knows (with_known f previous p) w
  with_known-Knows none p w e = record {
    when_present = λ y. absurd (ground arith);
    when_absent = λ n. e;
  }
  with_known-Knows (some v) p w e = record {
    when_present = λ y. e;
    when_absent = λ n. absurd (ground arith);
  }

  pub Prior-moved :
      (previous : Option (Metadata D)) (w w' : W)
      → at committed w' ≡ at committed w
      → Prior previous w
      → Prior previous w'
  Prior-moved none w w' e r = e ∙ r
  Prior-moved (some v) w w' e r = e ∙ r

  pub rolled :
      {before : Option (Policy D × Bool)} {held : ℕ} {s : Private D W} {w : W}
      {u' : LocationUpdate D} {m' : Model D W} {w' : W} {done : Bool}
      → RolledBack b before held s w u' m' w' done
      → done ≡ true
      → Restores before (b.read w')
  rolled (restored closed r e) y = r
  rolled (stranded closed d k) y = absurd (ground arith)

  pub unrolled :
      {before : Option (Policy D × Bool)} {held : ℕ} {s : Private D W} {w : W}
      {u' : LocationUpdate D} {m' : Model D W} {w' : W} {done : Bool}
      → RolledBack b before held s w u' m' w' done
      → done ≡ false
      → Survives before (b.read w) (b.read w')
  unrolled (restored closed r e) n = absurd (ground arith)
  unrolled (stranded closed d k) n = d

  -- The document after a rollback that failed, from the one that the update had stored.
  pub survived :
      {start after : Option (Policy D × Bool)} {previous written : Policy D} {found : Bool}
      → Survives (some (previous, found)) start after
      → start ≡ some (written, true)
      → (after ≡ some (written, true))
        ⊎ ((found ≡ false) × ((q : Policy D) × (after ≡ some (q, false))))
  survived (Survives.kept e) r = inl (e ∙ r)
  survived (Survives.lost p q x y) r = inr (cc, (q, y))

  pub published_record :
      {w w' : W} {done : Bool} (v : Metadata D)
      → Finished f sys b.read l w w' done
      → done ≡ true
      → at pending w ≡ ok v
      → at committed w' ≡ ok v
  published_record v (finished x e p j) y journal = let alike : (x ≡ v) = cc in p ∙ ap ok alike
  published_record v (unfinished e j) y journal = absurd (ground arith)

  pub unpublished_record :
      {w w' : W} {done : Bool}
      → Finished f sys b.read l w w' done
      → done ≡ false
      → (at committed w' ≡ at committed w) × (at pending w' ≡ at pending w)
  unpublished_record (finished x e p j) n = absurd (ground arith)
  unpublished_record (unfinished e j) n = (e, j)

  unfoldable pub IsOpen-moved :
      {before : Option (Policy D × Bool)} {held : ℕ} {u : LocationUpdate D} {m : Model D W} {w : W}
      (w' : W)
      → b.read w' ≡ b.read w
      → b.held w' ≡ b.held w
      → IsOpen b before held u m w
      → IsOpen b before held u m w'
  IsOpen-moved w' e h o = record {
    state = o.state;
    has_state = o.has_state;
    uses = o.uses;
    saving = o.saving;
    active = o.active;
    names = o.names;
    shows = e ∙ o.shows;
    persisted = o.persisted;
    remembers = o.remembers;
    locked = h ∙ o.locked;
  }
