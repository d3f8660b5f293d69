-- ===== src/LocationMetadata/Recovered.antt =====
-- The recovery, in each of its cases.
use mathlib.Core.Path.{subst}
use system_settings.LocationMetadata.Defs.{
  MetadataFile, committed, pending, Metadata, LoadStatus, ok, missing, MetadataSystem,
  metadata_load, finish_staged,
}
use system_settings.LocationMetadata.Files.{LawfulFiles}
use system_settings.LocationMetadata.Outcome.{
  Matches, unlink-Removed, Removed-true, LoadStatus-cases, Finished, finished, unfinished,
  finish_staged-Finished,
}
use system_settings.LocationMetadata.Recovery.{coordinate_close, discard_and_clear, recover_with}
use system_settings.Policy.{Policy}
use system_settings.Prelude.{
  Bool, false, true, not, ◌&&◌, Option, Double, if◌then◌else◌, ◌≡◌, ◌⊎◌, inl, inr, refl, ◌∙◌, arith,
}

module _ {D W : Type 0} (f : Double D) (sys : MetadataSystem D W)
    (policy : W → Option (Policy D × Bool)) (l : LawfulFiles sys policy) where
  abbrev at : MetadataFile → W → LoadStatus D
  at file w = metadata_load f sys file w

  -- The journal does not hold a record of the place of the policy.
  abbrev pub NotAbout : Policy D → W → Type 0
  NotAbout p w = ¬ ((v : Metadata D) × (metadata_load f sys pending w ≡ ok v) × Matches f v p)

  -- How a recovery under the policy `p` ends.
  pub data Recovered (p : Policy D) (w w' : W) : Bool → Type 0 where
    -- no location is configured: neither record is left
    cleared :
        p.location_configured ≡ false
        → metadata_load f sys committed w' ≡ missing
        → metadata_load f sys pending w' ≡ missing
        → Recovered p w w' true
    -- a location is configured, and the journal was missing, unusable or about another place
    kept :
        p.location_configured ≡ true
        → NotAbout p w
        → metadata_load f sys committed w' ≡ metadata_load f sys committed w
        → metadata_load f sys pending w' ≡ missing
        → Recovered p w w' true
    -- the journal is about the configured place: it is committed
    completed :
        (v : Metadata D)
        → p.location_configured ≡ true
        → Matches f v p
        → metadata_load f sys pending w ≡ ok v
        → metadata_load f sys committed w' ≡ ok v
        → (metadata_load f sys pending w' ≡ missing) ⊎ (metadata_load f sys pending w' ≡ ok v)
        → Recovered p w w' true
    -- to be retried: a committed record is lost only where no location is configured
    retry :
        (metadata_load f sys committed w' ≡ metadata_load f sys committed w)
          ⊎ (p.location_configured ≡ false)
        → Recovered p w w' false

  -- The end `r` is one of a recovery under `p` from `w`, with the policy as it was.
  abbrev pub Ends : Policy D → W → W × Bool → Type 0
  Ends p w r = Recovered p w r.0 r.1 × (policy r.0 ≡ policy w)

  branch-Ends :
      (p : Policy D) (w : W) (test : Bool) (r r' : W × Bool)
      → (test ≡ true → Ends p w r)
      → (test ≡ false → Ends p w r')
      → Ends p w (if test then r else r')
  branch-Ends p w true r r' yes_case no_case = yes_case refl
  branch-Ends p w false r r' yes_case no_case = no_case refl

  -- The committed record goes where no location is configured and no journal is left.
  clear-Ends :
      (p : Policy D) (w v : W)
      → p.location_configured ≡ false
      → at pending v ≡ missing
      → policy v ≡ policy w
      → Ends p w (sys.unlink committed v)
  clear-Ends p w v unconfigured no_journal same =
      let u = unlink-Removed f sys policy l committed v in
      (go (sys.unlink committed v).1 refl, u.2 ∙ same)
    where
      go :
          (done : Bool)
          → (sys.unlink committed v).1 ≡ done
          → Recovered p w (sys.unlink committed v).0 done
      go true y =
          let u = unlink-Removed f sys policy l committed v in
          cleared unconfigured (Removed-true f sys policy l u.0 y) (u.1 ∙ no_journal)
      go false n = retry (inr unconfigured)

  discard_and_clear-Ends :
      (p : Policy D) (w : W)
      → (p.location_configured ≡ true → NotAbout p w)
      → Ends p w (discard_and_clear f sys p.location_configured w)
  unfolding discard_and_clear
  discard_and_clear-Ends p w about =
      let u = unlink-Removed f sys policy l pending w in
      branch-Ends p w (not (sys.unlink pending w).1) _ _ (λ n. (retry (inl u.1), u.2))
        (λ y.
          let no_journal = Removed-true f sys policy l u.0 (ground arith) in
          branch-Ends p w (not p.location_configured) _ _
            (λ unconfigured. clear-Ends p w (sys.unlink pending w).0 (ground arith) no_journal u.2)
            (λ configured. (kept (ground arith) (about (ground arith)) u.1 no_journal, u.2)))

  finish-Ends :
      (p : Policy D) (w : W) (v : Metadata D)
      → p.location_configured ≡ true
      → Matches f v p
      → at pending w ≡ ok v
      → Ends p w (finish_staged f sys w)
  finish-Ends p w v configured m e =
      let t = finish_staged-Finished f sys policy l w in (go t.0, t.1)
    where
      go : {w' : W} {done : Bool} → Finished f sys policy l w w' done → Recovered p w w' done
      go (finished v' e' c j) =
          let alike : (v ≡ v') = cc in
          completed v' configured (subst (λ x. Matches f x p) alike m) e' c j
      go (unfinished c j) = retry (inl c)

  mismatch :
      (p : Policy D) (w : W) (v : Metadata D)
      → at pending w ≡ ok v
      → p.location_configured ≡ true
      → (p.location_configured
          && coordinate_close f v.latitude p.latitude
          && coordinate_close f v.longitude p.longitude)
        ≡ false
      → (v' : Metadata D) → at pending w ≡ ok v'
      → Matches f v' p
      → ⊥
  mismatch p w v e c n v' e' m =
      let alike : (v' ≡ v) = cc in
      let m' : Matches f v p = subst (λ x. Matches f x p) alike m in ground (arith, c, n, m')

  -- A recovery that has read the policy `p` and reports success leaves no record if no location is
  -- configured, the committed record and no journal if the journal was not about the configured place,
  -- and the journal's record as the committed one if it was; one that fails keeps the committed record
  -- of a configured location. The policy stays in any case.
  pub recover_with-Recovered :
      (p : Policy D) (w : W)
      → Recovered p w (recover_with f sys p w).0 (recover_with f sys p w).1
        × (policy (recover_with f sys p w).0 ≡ policy w)
  unfolding recover_with
  recover_with-Recovered p w = elim (LoadStatus-cases f sys policy l (at pending w)) [
    | inl (v, e) ↦
        rw (e, recover_with)
          (branch-Ends p w
            (p.location_configured
              && coordinate_close f v.latitude p.latitude
              && coordinate_close f v.longitude p.longitude)
            _ _ (λ y. finish-Ends p w v (ground arith) (ground arith) e)
            (λ n. discard_and_clear-Ends p w (λ c t. mismatch p w v e c n t.0 t.1 t.2)))
    | inr (inl e) ↦
        rw (e, recover_with)
          (branch-Ends p w (not p.location_configured) _ _
            (λ unconfigured. clear-Ends p w w (ground arith) e refl)
            (λ configured. (kept (ground arith) (λ t. cc (t.1)) refl e, refl)))
    | inr (inr (inl e)) ↦ rw (e, recover_with) (discard_and_clear-Ends p w (λ c t. cc (t.1)))
    | inr (inr (inr e)) ↦ rw (e, recover_with) (retry (inl refl), refl)
  ]
