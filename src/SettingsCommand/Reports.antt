-- ===== src/SettingsCommand/Reports.antt =====
-- How a command can end, behind its options and between steps that change nothing.
use mathlib.Core.Path.{subst}
use system_settings.DateTimeModel.Backend.{Backend, Lawful}
use system_settings.DateTimeModel.Edits.{draft_policy}
use system_settings.LocationMetadata.Defs.{
  MetadataFile, committed, pending, Metadata, LoadStatus, missing, MetadataSystem, metadata_load,
  stage,
}
use system_settings.LocationMetadata.Files.{LawfulFiles}
use system_settings.LocationMetadata.RoundTrip.{metadata_save-Saved, Saved-true}
use system_settings.LocationMetadata.Untouched.{Apart}
use system_settings.Policy.{Policy, Common, Store}
use system_settings.Prelude.{
  Bool, false, true, ◌&&◌, not, Option, none, some, List, [], Bytes, Double, ◌≡◌, ◌⊎◌, inl, inr,
  refl, sym, ◌∙◌, arith, Bool-cases,
}
use system_settings.SettingsCommand.Agreement.{Agrees, Asks, Request}
use system_settings.SettingsCommand.Main.{Run, zeroed, publish, commit_staged}
use system_settings.SettingsCommand.Options.{Staged, options}
use system_settings.SettingsCommand.Publishing.{
  Published, succeeded, unsaved, incompatible_desktop, undone, to_recover, publish-Published,
}
use system_settings.SettingsCommand.RollingBack.{
  store_with, Same, Applied, unasked, placed, removed,
}

module _ {D W : Type 0} (c : Common D) (f : Double D) (sys : MetadataSystem D W)
    (parse_double_range : Bytes → D → D → Option D) (b : Backend D W)
    (compatible : Option (Policy D → W → Bool)) (l : LawfulFiles sys b.read) (lb : Lawful b)
    (apart : Apart sys b) where
  abbrev pub at : MetadataFile → W → LoadStatus D
  at file w = metadata_load f sys file w

  abbrev platform : Option (Store D W)
  platform = some (store_with b compatible)

  -- what is staged before the first option
  abbrev pub base : Policy D → Staged D
  base p = record {
    draft = some p;
    change_requested = false;
    clear_requested = false;
    candidate = none;
  }

  abbrev pub Alike : W → W → Type 0
  Alike w w' = Same c f sys parse_double_range b compatible l lb apart w w'

  abbrev pub Ended : Policy D → Bool → Staged D → Policy D → Metadata D → W → Run D W → Type 0
  Ended = Published c f sys parse_double_range b compatible l lb apart

  -- How a command ends.
  pub data Reports (arguments : List Bytes) (w : W) (r : Run D W) : Type 0 where
    -- without arguments: the document, which stays
    shown :
        (p : Policy D) (found : Bool)
        → arguments ≡ []
        → b.read w ≡ some (p, found)
        → r.exit_code ≡ 0
        → r.output ≡ some (p, found)
        → Alike w r.world
        → Reports arguments w r
    -- nothing was changed
    refused :
        (r.exit_code ≡ 1) ⊎ (r.exit_code ≡ 2)
        → r.output ≡ none
        → Alike w r.world
        → Reports arguments w r
    -- the options were accepted, and `p` was to be saved
    ran :
        (p0 p : Policy D) (found : Bool) (t : Staged D) (v : Metadata D) (q : Request D)
        → b.read w ≡ some (p0, found)
        → options c f parse_double_range (base p0) arguments ≡ some t
        → t.draft ≡ some p
        → Asks f parse_double_range arguments q
        → Agrees p0 t q
        → (t.candidate ≡ none) ⊎ (t.candidate ≡ some v)
        → Ended p0 found t p v w r
        → Reports arguments w r

  -- The policy and both records are as before.
  abbrev pub AllAlike : W → W → Type 0
  AllAlike w w' = Alike w w' × (at pending w' ≡ at pending w)

  pub Alike-then : {u v w : W} → Alike u v → Alike v w → Alike u w
  Alike-then (e, g) (e', g') = (e' ∙ e, g' ∙ g)

  pub Applied-moved :
      {requested cleared : Bool} {v : Metadata D} {w w' u u' : W}
      → at committed u ≡ at committed w
      → at committed u' ≡ at committed w'
      → Applied c f sys parse_double_range b compatible l lb apart requested cleared v u w'
      → Applied c f sys parse_double_range b compatible l lb apart requested cleared v w u'
  Applied-moved e e' (unasked r s) = unasked r (e' ∙ s ∙ e)
  Applied-moved e e' (placed r k s) = placed r k (e' ∙ s)
  Applied-moved e e' (removed r k s) = removed r k (e' ∙ s)

  pub kept_or :
      {k : Type 0} {s t x y : LoadStatus D}
      → t ≡ s
      → y ≡ x
      → (x ≡ t) ⊎ (k × (x ≡ missing))
      → (y ≡ s) ⊎ (k × (y ≡ missing))
  kept_or e e' (inl g) = inl (e' ∙ g ∙ e)
  kept_or e e' (inr (k, g)) = inr (k, e' ∙ g)

  -- Steps before that change neither the policy nor the committed record, and steps after that do not
  -- change the journal either.
  pub Ended-moved :
      {p0 : Policy D} {found : Bool} {t : Staged D} {p : Policy D} {v : Metadata D} {w u u' : W}
      {r : Run D W}
      → Alike w u
      → AllAlike r.world u'
      → Ended p0 found t p v u r
      → Ended p0 found t p v w (record r { world = u' })
  Ended-moved (e, g) ((e', g'), j) (succeeded x o k a) =
      succeeded x o (e' ∙ k) (Applied-moved g g' a)
  Ended-moved (e, g) ((e', g'), j) (unsaved x o (k, s)) = unsaved x o (e' ∙ k ∙ e, g' ∙ s ∙ g)
  Ended-moved (e, g) ((e', g'), j) (incompatible_desktop x o k a) =
      incompatible_desktop x o (e' ∙ k) (Applied-moved g g' a)
  Ended-moved (e, g) ((e', g'), j) (undone q x o k z s) = undone q x o (e' ∙ k) z (kept_or g g' s)
  Ended-moved (e, g) ((e', g'), j) (to_recover x o k s h) =
      to_recover x o (elim k [ inl y ↦ inl (e' ∙ y) | inr (n, (q, y)) ↦ inr (n, (q, e' ∙ y)) ])
        (kept_or g g' s) (elim h [ inl y ↦ inl y | inr y ↦ inr (j ∙ y) ])

  pub Reports-moved :
      {arguments : List Bytes} {w u u' : W} {r : Run D W}
      → Alike w u
      → AllAlike r.world u'
      → Reports arguments u r
      → Reports arguments w (record r { world = u' })
  Reports-moved e e' (shown p found n k x o s) =
      shown p found n (sym (e.0) ∙ k) x o (Alike-then e (Alike-then s (e'.0)))
  Reports-moved e e' (refused x o s) = refused x o (Alike-then e (Alike-then s (e'.0)))
  Reports-moved e e' (ran p0 p found t v q k o d x a z s) =
      ran p0 p found t v q (sym (e.0) ∙ k) o d x a z (Ended-moved e e' s)

  abbrev pub journalled : Staged D → Metadata D
  journalled t = elim t.candidate [ none ↦ zeroed c f sys parse_double_range platform | some v ↦ v ]

  -- the command with a record to journal
  pub staged-Ended :
      (p0 p : Policy D) (found : Bool) (t : Staged D) (w : W)
      → t.draft ≡ some p
      → (t.change_requested && not t.clear_requested) ≡ true
      → Ended p0 found t p
          (journalled t)
          w
          (commit_staged c f sys parse_double_range platform p0 found t w)
  unfolding commit_staged draft_policy
  staged-Ended p0 p found t w d h =
      let v = journalled t in
      let s = metadata_save-Saved f sys b.read l pending v w in
      let w1 = (stage f sys v w).0 in
      elim (Bool-cases (stage f sys v w).1) [
        | inr n ↦
            unsaved (ground arith) (ground arith)
              (subst (Alike w) (ground arith) (let same : Alike w w1 = (s.2, s.1) in same))
        | inl y ↦
            let q = publish c f sys parse_double_range platform p0 found t p w1 in
            let ends : Ended p0 found t p v w1 q =
              publish-Published c f sys parse_double_range b compatible l lb apart p0 found t p v w1
                (λ _ _. Saved-true f sys b.read l (s.0) y) in
            subst (Ended p0 found t p v w) (ground arith)
              (Ended-moved {u = w1} {u' = q.world} {r = q} (s.2, s.1) ((refl, refl), refl) ends)
      ]

  pub unstaged-Ended :
      (p0 p : Policy D) (found : Bool) (t : Staged D) (w : W)
      → t.draft ≡ some p
      → (t.change_requested && not t.clear_requested) ≡ false
      → Ended p0 found t p
          (journalled t)
          w
          (commit_staged c f sys parse_double_range platform p0 found t w)
  unfolding commit_staged draft_policy
  unstaged-Ended p0 p found t w d h = subst (Ended p0 found t p (journalled t) w) (ground arith) (
      publish-Published c f sys parse_double_range b compatible l lb apart p0 found t p
        (journalled t) w (λ x y. absurd (ground arith)))

  pub commit_staged-Ended :
      (p0 p : Policy D) (found : Bool) (t : Staged D) (w : W)
      → t.draft ≡ some p
      → Ended p0 found t p
          (journalled t)
          w
          (commit_staged c f sys parse_double_range platform p0 found t w)
  commit_staged-Ended p0 p found t w d =
      elim (Bool-cases (t.change_requested && not t.clear_requested)) [
        | inl h ↦ staged-Ended p0 p found t w d h
        | inr h ↦ unstaged-Ended p0 p found t w d h
      ]
