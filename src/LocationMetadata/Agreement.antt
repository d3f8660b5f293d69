-- ===== src/LocationMetadata/Agreement.antt =====
-- The policy and the records after a recovery behind a change of place that was cut off.
use mathlib.Core.Option.{some-injective}
use mathlib.Core.Path.{subst}
use system_settings.DateTimeModel.Backend.{Backend, Lawful}
use system_settings.DateTimeModel.Edits.{assign_location}
use system_settings.LocationMetadata.Defs.{
  MetadataFile, committed, pending, Metadata, LoadStatus, ok, missing, MetadataSystem,
  metadata_load,
}
use system_settings.LocationMetadata.Files.{LawfulFiles}
use system_settings.LocationMetadata.Outcome.{Matches}
use system_settings.LocationMetadata.Recovered.{Recovered, cleared, kept, completed}
use system_settings.LocationMetadata.Untouched.{Apart}
use system_settings.Policy.{Policy}
use system_settings.Prelude.{
  Bool, false, true, some, Double, ◌≡◌, ◌⊎◌, inl, inr, sym, ◌∙◌, ap, arith,
}
use system_settings.LocationMetadata.Crash.{
  Between, Old, moved, ok-injective, old, journalled, published,
}

module _ {D W : Type 0} (f : Double D) (sys : MetadataSystem D W) (b : Backend D W)
    (l : LawfulFiles sys b.read) (lb : Lawful b) (apart : Apart sys b) (v : Metadata D)
    (p0 : Policy D) (found : Bool) (w0 : W) where
  abbrev record_in : MetadataFile → W → LoadStatus D
  record_in file w = metadata_load f sys file w

  -- The policy and the committed record agree: the policy is as before and, if it has a place, so is the
  -- record, and if not, there is no record; or the record is the new one and the policy is about its
  -- place.
  pub data Consistent (w : W) : Type 0 where
    as_before :
        (q : Policy D)
        → Old f sys b l lb apart v p0 found w0 q w
        → ((q.location_configured ≡ true) × (record_in committed w ≡ record_in committed w0))
          ⊎ ((q.location_configured ≡ false) × (record_in committed w ≡ missing))
        → Consistent w
    same_place :
        (q : Policy D)
        → Old f sys b l lb apart v p0 found w0 q w
        → Matches f v q
        → record_in committed w ≡ ok v
        → Consistent w
    changed :
        b.read w ≡ some (moved f sys b l lb apart v p0 found w0, true)
        → record_in committed w ≡ ok v
        → Consistent w

  Old-Consistent :
      (w w' : W) (q : Policy D)
      → Old f sys b l lb apart v p0 found w0 q w'
      → record_in committed w ≡ record_in committed w0
      → (record_in pending w ≡ missing) ⊎ (record_in pending w ≡ ok v)
      → Recovered f sys b.read l q w w' true
      → Consistent w'
  Old-Consistent w w' y r c j (cleared unconfigured removed none_left) =
      as_before y r (inr (unconfigured, removed))
  Old-Consistent w w' y r c j (kept configured about same removed) =
      as_before y r (inl (configured, same ∙ c))
  Old-Consistent w w' y r c (inl e) (completed x configured m p q s) = absurd cc
  Old-Consistent w w' y r c (inr e) (completed x configured m p q s) =
      let alike : (x ≡ v) = ok-injective f sys b l lb apart v p0 found w0 (sym p ∙ e) in
      same_place y r (subst (λ z. Matches f z y) alike m) (q ∙ ap ok alike)

  moved-Consistent :
      (w w' : W)
      → Matches f v (moved f sys b l lb apart v p0 found w0)
      → b.read w' ≡ some (moved f sys b l lb apart v p0 found w0, true)
      → (record_in pending w ≡ ok v)
        ⊎ ((record_in pending w ≡ missing) × (record_in committed w ≡ ok v))
      → Recovered f sys b.read l (moved f sys b l lb apart v p0 found w0) w w' true
      → Consistent w'
  unfolding assign_location
  moved-Consistent w w' m r j (cleared unconfigured removed none_left) = absurd (ground arith)
  moved-Consistent w w' m r (inl e) (kept configured about same removed) = absurd (about (v, e, m))
  moved-Consistent w w' m r (inr e) (kept configured about same removed) = changed r (same ∙ e.1)
  moved-Consistent w w' m r (inl e) (completed x configured n p q s) =
      changed r (q ∙ ap ok (ok-injective f sys b l lb apart v p0 found w0 (sym p ∙ e)))
  moved-Consistent w w' m r (inr e) (completed x configured n p q s) = absurd (cc (e.0))

  pub Consistent-same :
      (x x' : W)
      → b.read x' ≡ b.read x
      → record_in committed x' ≡ record_in committed x
      → Consistent x
      → Consistent x'
  Consistent-same x x' e g (as_before q r (inl (k, c))) =
      as_before q (e ∙ r.0, r.1) (inl (k, g ∙ c))
  Consistent-same x x' e g (as_before q r (inr (u, c))) =
      as_before q (e ∙ r.0, r.1) (inr (u, g ∙ c))
  Consistent-same x x' e g (same_place q r m c) = same_place q (e ∙ r.0, r.1) m (g ∙ c)
  Consistent-same x x' e g (changed r c) = changed (e ∙ r) (g ∙ c)

  pub recovered-Consistent :
      (w w' : W) (p : Policy D) (q : Bool)
      → Matches f v (moved f sys b l lb apart v p0 found w0)
      → b.read w ≡ some (p, q)
      → b.read w' ≡ b.read w
      → Recovered f sys b.read l p w w' true
      → Between f sys b l lb apart v p0 found w0 w
      → Consistent w'
  recovered-Consistent w w' p q m r e t (old y s j c) =
      let alike : (p ≡ y) = ap (λ x. x.0) (some-injective (p, q) (y, found) (sym r ∙ s.0)) in
      Old-Consistent w w' y (e ∙ s.0, s.1) c j
        (subst (λ x. Recovered f sys b.read l x w w' true) alike t)
  recovered-Consistent w w' p q m r e t (journalled s j) =
      let alike : (p ≡ moved f sys b l lb apart v p0 found w0) =
        ap (λ x. x.0)
          (some-injective (p, q) (moved f sys b l lb apart v p0 found w0, true) (sym r ∙ s)) in
      moved-Consistent w w' m (e ∙ s) (inl j)
        (subst (λ x. Recovered f sys b.read l x w w' true) alike t)
  recovered-Consistent w w' p q m r e t (published s c j) =
      let alike : (p ≡ moved f sys b l lb apart v p0 found w0) =
        ap (λ x. x.0)
          (some-injective (p, q) (moved f sys b l lb apart v p0 found w0, true) (sym r ∙ s)) in
      moved-Consistent w w' m (e ∙ s) (both j)
        (subst (λ x. Recovered f sys b.read l x w w' true) alike t)
    where
      both :
          (record_in pending w ≡ missing) ⊎ (record_in pending w ≡ ok v)
          → (record_in pending w ≡ ok v)
            ⊎ ((record_in pending w ≡ missing) × (record_in committed w ≡ ok v))
      both (inl x) = inr (x, c)
      both (inr x) = inl x
