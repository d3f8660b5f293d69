-- ===== src/LocationMetadata/Crash.antt =====
-- A change of place that is cut off between two of its steps, and the recovery after it. The steps are
-- those of the location panel and of the command: the record is staged, the policy is written, the
-- journal is finished; if the write fails, the journal is discarded; if the journal cannot be finished,
-- the previous document is restored and the journal is discarded. Between them locks are taken and given
-- back.
use mathlib.Core.Path.{subst}
use system_settings.DateTimeModel.Backend.{Backend, Lawful}
use system_settings.DateTimeModel.Edits.{assign_location}
use system_settings.LocationMetadata.Defs.{
  MetadataFile, committed, pending, Metadata, LoadStatus, ok, missing, MetadataSystem,
  metadata_load, metadata_save, discard_staged, finish_staged,
}
use system_settings.LocationMetadata.Files.{LawfulFiles}
use system_settings.LocationMetadata.Outcome.{
  Removed, gone, unsure, unlink-Removed, Finished, finished, unfinished, finish_staged-Finished,
}
use system_settings.LocationMetadata.RoundTrip.{
  same_read-load, Saved, metadata_save-Saved, Saved-true, Saved-false,
}
use system_settings.LocationMetadata.Untouched.{Apart}
use system_settings.Policy.{Policy}
use system_settings.Prelude.{
  Bool, false, true, some, Double, if◌then◌else◌, ◌≡◌, ◌⊎◌, inl, inr, refl, sym, ◌∙◌, ap, arith,
  Bool-cases,
}

module _ {D W : Type 0} (f : Double D) (sys : MetadataSystem D W) (b : Backend D W)
    (l : LawfulFiles sys b.read) (lb : Lawful b) (apart : Apart sys b) (v : Metadata D)
    (p0 : Policy D) (found : Bool) (w0 : W) where
  abbrev pub at : MetadataFile → W → LoadStatus D
  at file w = metadata_load f sys file w

  -- the policy with the new place
  abbrev pub moved : Policy D
  moved = assign_location true v.latitude v.longitude p0

  abbrev w1 : W
  w1 = (metadata_save f sys pending v w0).0

  abbrev w2 : W
  w2 = (b.write moved w1).0

  abbrev w3 : W
  w3 = (finish_staged f sys w2).0

  -- the previous document, an absent one as absent
  abbrev restore : W → W × Bool
  restore w = if found then b.write p0 w else b.remove w

  abbrev w4 : W
  w4 = (restore w3).0

  -- The worlds in which the change can be cut off: each step is made only if the one before succeeded, or
  -- failed where the step is one of the way back.
  pub data CutOff : W → Type 0 where
    before_stage : {w : W} → w ≡ w0 → CutOff w
    after_stage : {w : W} → w ≡ w1 → CutOff w
    after_write : {w : W} → (metadata_save f sys pending v w0).1 ≡ true → w ≡ w2 → CutOff w
    after_publication :
        {w : W}
        → (metadata_save f sys pending v w0).1 ≡ true
        → (b.write moved w1).1 ≡ true
        → w ≡ (metadata_save f sys committed v w2).0
        → CutOff w
    after_finish :
        {w : W}
        → (metadata_save f sys pending v w0).1 ≡ true
        → (b.write moved w1).1 ≡ true
        → w ≡ w3
        → CutOff w
    after_giving_up :
        {w : W}
        → (metadata_save f sys pending v w0).1 ≡ true
        → (b.write moved w1).1 ≡ false
        → w ≡ (discard_staged f sys w2).0
        → CutOff w
    after_restoring :
        {w : W}
        → (metadata_save f sys pending v w0).1 ≡ true
        → (b.write moved w1).1 ≡ true
        → (finish_staged f sys w2).1 ≡ false
        → w ≡ w4
        → CutOff w
    after_discarding :
        {w : W}
        → (metadata_save f sys pending v w0).1 ≡ true
        → (b.write moved w1).1 ≡ true
        → (finish_staged f sys w2).1 ≡ false
        → (restore w3).1 ≡ true
        → w ≡ (discard_staged f sys w4).0
        → CutOff w
    records_locked : {w : W} (u : W) → CutOff u → w ≡ (sys.lock u).0 → CutOff w
    records_unlocked : {w : W} (u : W) → CutOff u → w ≡ sys.unlock u → CutOff w
    policy_locked : {w : W} (u : W) → CutOff u → w ≡ (b.lock u).0 → CutOff w
    policy_unlocked : {w : W} (u : W) → CutOff u → w ≡ b.unlock u → CutOff w

  -- The policy is `q` and as before, or absent as before.
  abbrev pub Old : Policy D → W → Type 0
  Old q w = (b.read w ≡ some (q, found)) × ((found ≡ false) ⊎ (q ≡ p0))

  -- What holds wherever the change is cut off.
  pub data Between (w : W) : Type 0 where
    old :
        (q : Policy D)
        → Old q w
        → (at pending w ≡ missing) ⊎ (at pending w ≡ ok v)
        → at committed w ≡ at committed w0
        → Between w
    journalled : b.read w ≡ some (moved, true) → at pending w ≡ ok v → Between w
    published :
        b.read w ≡ some (moved, true)
        → at committed w ≡ ok v
        → (at pending w ≡ missing) ⊎ (at pending w ≡ ok v)
        → Between w

  pub ok-injective : {x y : Metadata D} → ok x ≡ ok y → x ≡ y
  ok-injective e = cc

  same_or : {s t u : LoadStatus D} → s ≡ t → (t ≡ missing) ⊎ (t ≡ u) → (s ≡ missing) ⊎ (s ≡ u)
  same_or e (inl m) = inl (e ∙ m)
  same_or e (inr o) = inr (e ∙ o)

  pub Between-same :
      (x x' : W)
      → b.read x' ≡ b.read x
      → at pending x' ≡ at pending x
      → at committed x' ≡ at committed x
      → Between x
      → Between x'
  Between-same x x' e g h (old q r j c) = old q (e ∙ r.0, r.1) (same_or g j) (h ∙ c)
  Between-same x x' e g h (journalled r j) = journalled (e ∙ r) (g ∙ j)
  Between-same x x' e g h (published r c j) = published (e ∙ r) (h ∙ c) (same_or g j)

  -- The steps of the way back.
  restored_same : (w : W) (file : MetadataFile) → at file (restore w).0 ≡ at file w
  restored_same w file = elim (Bool-cases found) [
    | inl y ↦
        let e : (restore w ≡ b.write p0 w) = ground arith in
        same_read-load f sys b.read l file _ w
          (ap (λ r. sys.read_keys file r.0) e ∙ apart.write-keys p0 file w)
    | inr n ↦
        let e : (restore w ≡ b.remove w) = ground arith in
        same_read-load f sys b.read l file _ w
          (ap (λ r. sys.read_keys file r.0) e ∙ apart.remove-keys file w)
  ]

  restored-Old : (w : W) → (restore w).1 ≡ true → (q : Policy D) × Old q (restore w).0
  restored-Old w r = elim (Bool-cases found) [
    | inl y ↦
        let e : (restore w ≡ b.write p0 w) = ground arith in
        (
          p0,
          (
            ap (λ x. b.read x.0) e
                ∙ lb.write-read p0 w (sym (ap (λ x. x.1) e) ∙ r)
                ∙ ap (λ k. some (p0, k)) (sym y),
            inr refl,
          ),
        )
    | inr n ↦
        let e : (restore w ≡ b.remove w) = ground arith in
        let (q, absent) = lb.remove-read w (sym (ap (λ x. x.1) e) ∙ r) in
        (q, (ap (λ x. b.read x.0) e ∙ absent ∙ ap (λ k. some (q, k)) (sym n), inl n))
  ]

  unrestored :
      (w : W)
      → (restore w).1 ≡ false
      → (b.read (restore w).0 ≡ b.read w) ⊎ ((q : Policy D) × Old q (restore w).0)
  unrestored w r = elim (Bool-cases found) [
    | inl y ↦
        let e : (restore w ≡ b.write p0 w) = ground arith in
        inl (ap (λ x. b.read x.0) e ∙ lb.write_failed-read p0 w (sym (ap (λ x. x.1) e) ∙ r))
    | inr n ↦
        let e : (restore w ≡ b.remove w) = ground arith in
        elim (lb.remove_failed-read w (sym (ap (λ x. x.1) e) ∙ r)) [
          | inl stays ↦ inl (ap (λ x. b.read x.0) e ∙ stays)
          | inr (q, absent) ↦
              inr (q, (ap (λ x. b.read x.0) e ∙ absent ∙ ap (λ k. some (q, k)) (sym n), inl n))
        ]
  ]

  restored-Between :
      (w : W)
      → b.read w ≡ some (moved, true)
      → at pending w ≡ ok v
      → at committed w ≡ at committed w0
      → Between (restore w).0
  restored-Between w r j c = elim (Bool-cases (restore w).1) [
    | inl y ↦
        let (q, o) = restored-Old w y in
        old q o (inr (restored_same w pending ∙ j)) (restored_same w committed ∙ c)
    | inr n ↦ elim (unrestored w n) [
      | inl stays ↦ journalled (stays ∙ r) (restored_same w pending ∙ j)
      | inr (q, o) ↦ old q o (inr (restored_same w pending ∙ j)) (restored_same w committed ∙ c)
    ]
  ]

  discarded_journal :
      {w w' : W} {done : Bool}
      → Removed f sys b.read l pending w w' done
      → (at pending w ≡ missing) ⊎ (at pending w ≡ ok v)
      → (at pending w' ≡ missing) ⊎ (at pending w' ≡ ok v)
  discarded_journal (gone e) j = inl e
  discarded_journal (unsure (inl e)) j = same_or e j
  discarded_journal (unsure (inr e)) j = inl e

  discarded-Between :
      (w : W) (q : Policy D)
      → Old q w
      → (at pending w ≡ missing) ⊎ (at pending w ≡ ok v)
      → at committed w ≡ at committed w0
      → Between (discard_staged f sys w).0
  discarded-Between w q o j c =
      let u = unlink-Removed f sys b.read l pending w in
      old q (u.2 ∙ o.0, o.1) (discarded_journal (u.0) j) (u.1 ∙ c)

  unfinished_same :
      {w w' : W} {done : Bool}
      → Finished f sys b.read l w w' done
      → done ≡ false
      → (at committed w' ≡ at committed w) × (at pending w' ≡ at pending w)
  unfinished_same (finished x p c j) n = absurd (ground arith)
  unfinished_same (unfinished c j) n = (c, j)

  module _ (reads : b.read w0 ≡ some (p0, found)) (no_journal : at pending w0 ≡ missing) where
    staged :
        Saved f sys b.read l pending v w0 w1 (metadata_save f sys pending v w0).1
        × (at committed w1 ≡ at committed w0)
        × (b.read w1 ≡ b.read w0)
    staged = metadata_save-Saved f sys b.read l pending v w0

    -- the write leaves both records
    written : (file : MetadataFile) → at file w2 ≡ at file w1
    written file = same_read-load f sys b.read l file w2 w1 (apart.write-keys moved file w1)

    journal : (metadata_save f sys pending v w0).1 ≡ true → at pending w2 ≡ ok v
    journal done = written pending ∙ Saved-true f sys b.read l (staged.0) done

    Finished-Between :
        (w : W) (done : Bool)
        → (metadata_save f sys pending v w0).1 ≡ true
        → b.read w ≡ some (moved, true)
        → Finished f sys b.read l w2 w done
        → Between w
    Finished-Between w true done r (finished x p c j) =
        let alike : (x ≡ v) = ok-injective (sym p ∙ journal done) in
        published r (c ∙ ap ok alike)
          (subst (λ y. (at pending w ≡ missing) ⊎ (at pending w ≡ ok y)) alike j)
    Finished-Between w false done r (unfinished c j) = journalled r (j ∙ journal done)

    -- a journal that cannot be finished
    unfinished_facts :
        (metadata_save f sys pending v w0).1 ≡ true
        → (b.write moved w1).1 ≡ true
        → (finish_staged f sys w2).1 ≡ false
        → (b.read w3 ≡ some (moved, true))
          × (at pending w3 ≡ ok v)
          × (at committed w3 ≡ at committed w0)
    unfinished_facts done y n =
        let t = finish_staged-Finished f sys b.read l w2 in
        let s = unfinished_same (t.0) n in
        (t.1 ∙ lb.write-read moved w1 y, s.1 ∙ journal done, s.0 ∙ written committed ∙ staged.1)

    pub CutOff-Between : (w : W) → CutOff w → Between w
    CutOff-Between w (before_stage e) =
        subst Between (sym e) (old p0 (reads, inr refl) (inl no_journal) refl)
    CutOff-Between w (after_stage e) = elim (Bool-cases (metadata_save f sys pending v w0).1) [
      | inl y ↦ subst Between (sym e) (
          old p0 (staged.2 ∙ reads, inr refl) (inr (Saved-true f sys b.read l (staged.0) y))
            (staged.1))
      | inr n ↦ subst Between (sym e) (
          old p0 (staged.2 ∙ reads, inr refl)
            (inl (Saved-false f sys b.read l (staged.0) n ∙ no_journal)) (staged.1))
    ]
    CutOff-Between w (after_write done e) = elim (Bool-cases (b.write moved w1).1) [
      | inl y ↦ subst Between (sym e) (journalled (lb.write-read moved w1 y) (journal done))
      | inr n ↦ subst Between (sym e) (
          old p0 (lb.write_failed-read moved w1 n ∙ staged.2 ∙ reads, inr refl) (inr (journal done))
            (written committed ∙ staged.1))
    ]
    CutOff-Between w (after_publication done y e) =
        let t = metadata_save-Saved f sys b.read l committed v w2 in
        subst Between (sym e) (journalled (t.2 ∙ lb.write-read moved w1 y) (t.1 ∙ journal done))
    CutOff-Between w (after_finish done y e) =
        let t = finish_staged-Finished f sys b.read l w2 in
        subst Between (sym e) (Finished-Between _ _ done (t.1 ∙ lb.write-read moved w1 y) (t.0))
    CutOff-Between w (after_giving_up done n e) = subst Between (sym e) (
        discarded-Between w2 p0 (lb.write_failed-read moved w1 n ∙ staged.2 ∙ reads, inr refl)
          (inr (journal done)) (written committed ∙ staged.1))
    CutOff-Between w (after_restoring done y n e) =
        let t = unfinished_facts done y n in
        subst Between (sym e) (restored-Between w3 (t.0) (t.1) (t.2))
    CutOff-Between w (after_discarding done y n r e) =
        let t = unfinished_facts done y n in
        let (q, o) = restored-Old w3 r in
        subst Between (sym e) (
          discarded-Between w4 q o (inr (restored_same w3 pending ∙ t.1))
            (restored_same w3 committed ∙ t.2))
    CutOff-Between w (records_locked u cut e) = subst Between (sym e) (
        Between-same u _ (l.lock-policy u)
          (same_read-load f sys b.read l pending _ u (l.lock-read pending u))
          (same_read-load f sys b.read l committed _ u (l.lock-read committed u))
          (CutOff-Between u cut))
    CutOff-Between w (records_unlocked u cut e) = subst Between (sym e) (
        Between-same u _ (l.unlock-policy u)
          (same_read-load f sys b.read l pending _ u (l.unlock-read pending u))
          (same_read-load f sys b.read l committed _ u (l.unlock-read committed u))
          (CutOff-Between u cut))
    CutOff-Between w (policy_locked u cut e) = subst Between (sym e) (
        Between-same u _ (lb.lock-read u)
          (same_read-load f sys b.read l pending _ u (apart.lock-keys pending u))
          (same_read-load f sys b.read l committed _ u (apart.lock-keys committed u))
          (CutOff-Between u cut))
    CutOff-Between w (policy_unlocked u cut e) = subst Between (sym e) (
        Between-same u _ (lb.unlock-read u)
          (same_read-load f sys b.read l pending _ u (apart.unlock-keys pending u))
          (same_read-load f sys b.read l committed _ u (apart.unlock-keys committed u))
          (CutOff-Between u cut))
