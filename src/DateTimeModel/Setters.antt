-- ===== src/DateTimeModel/Setters.antt =====
-- The setters of the model and of a draft against the meaning of a request, and the rule that a value
-- is visible only once it is saved.
use system_settings.DateTimeModel.Defs.{
  Private, Model, store_begin_update, store_save, try_load, begin_candidate, save_candidate, commit,
  commit_to,
}
use system_settings.DateTimeModel.Edits.{
  Edit, clock, set_clock_mode, set_calendar, set_show_seconds, set_location, set_edit, edit_change,
}
use system_settings.Policy.{Policy, Common}
use system_settings.Prelude.{
  Bool, false, true, Option, none, some, Double, ◌≡◌, ◌⊎◌, inl, inr, refl, arith, Option-cases,
  Bool-cases,
}

module _ {D W : Type 0} (c : Common D) (f : Double D) where
  pub set_edit-commit :
      (e : Edit D) (m : Model D W) (w : W)
      → set_edit c f e m w
        ≡ elim (edit_change c f e) [ none ↦ (m, w, false) | some change ↦ commit_to change m w ]
  unfolding set_edit set_clock_mode set_calendar set_show_seconds set_location edit_change
  set_edit-commit (clock mode) m w = ground arith
  set_edit-commit _ m w = ground arith

-- What a successful commit saved: a policy that differs by the change from the one that the store
-- held at the save, or from the model's own if the store has no lock.
pub record Committed {D W : Type 0} (change : Policy D → Policy D) (s s' : Private D W)
    : Type 0 where
  pub base : Policy D
  pub found : Bool
  pub world : W
  pub save : Policy D → W → W × Bool
  pub has_save : store_save s ≡ some save
  pub saved : (save (change base) world).1 ≡ true
  pub source :
      ((store_begin_update s ≡ none) × (base ≡ s.policy)) ⊎ (try_load s world ≡ some (base, found))
  pub published : s'.policy ≡ change base
  pub persisted : s'.persisted_policy_present ≡ true
  pub released : s'.saving ≡ false

-- The policy of the state, and whether it was persisted.
abbrev pub SamePolicy : {D W : Type 0} → Private D W → Private D W → Type 0
SamePolicy s s' =
    (s'.policy ≡ s.policy)
    × (s'.persisted_policy_present ≡ s.persisted_policy_present)
    × (s'.store ≡ s.store)
    × (s'.saving ≡ s.saving)

module _ {D W : Type 0} where
  begin_candidate-SamePolicy :
      (s : Private D W) (w : W)
      → (begin_candidate s w).2 ≡ none
      → SamePolicy s (begin_candidate s w).0
  unfolding begin_candidate
  begin_candidate-SamePolicy s w e = ground arith

  -- A candidate is what the store holds, or the model's own policy if the store has no lock.
  pub begin_candidate-some :
      (s : Private D W) (w : W) {p : Policy D} {found : Bool}
      → (begin_candidate s w).2 ≡ some (p, found)
      → ((begin_candidate s w).0 ≡ record s { saving = true })
        × (s.saving ≡ false)
        × (((store_begin_update s ≡ none) × (p ≡ s.policy) × (found ≡ s.persisted_policy_present))
            ⊎ (try_load s (begin_candidate s w).1 ≡ some (p, found)))
  unfolding begin_candidate
  begin_candidate-some s w e = ground arith

  save_candidate-Committed :
      (change : Policy D → Policy D) (s : Private D W) (p : Policy D) (found : Bool) (w : W)
      → ((store_begin_update s ≡ none) × (p ≡ s.policy)) ⊎ (try_load s w ≡ some (p, found))
      → (save_candidate (record s { saving = true }) (change p) w).2 ≡ true
      → Committed change s (save_candidate (record s { saving = true }) (change p) w).0
  unfolding save_candidate
  save_candidate-Committed change s p found w h e = elim (Option-cases (store_save s)) [
    | inl n ↦ absurd (ground arith)
    | inr (save, is_save) ↦ record {
      base = p;
      found = found;
      world = w;
      save = save;
      has_save = is_save;
      saved = ground arith;
      source = h;
      published = ground arith;
      persisted = ground arith;
      released = ground arith;
    }
  ]

  commit-SamePolicy :
      (change : Policy D → Policy D) (s : Private D W) (w : W)
      → (commit change s w).2 ≡ false
      → SamePolicy s (commit change s w).0
  unfolding commit begin_candidate save_candidate
  commit-SamePolicy change s w e = ground arith

  commit-Committed :
      (change : Policy D → Policy D) (s : Private D W) (w : W)
      → (commit change s w).2 ≡ true
      → Committed change s (commit change s w).0
  unfolding commit
  commit-Committed change s w e = elim (Option-cases (begin_candidate s w).2) [
    | inl n ↦ absurd (ground arith)
    | inr (c, is_c) ↦
        let b = begin_candidate-some s w {p = c.0} {found = c.1} is_c in
        rw (is_c, commit)
          (rw b.0 (
            save_candidate-Committed change s c.0 c.1 _ (ground arith)
              (rw b.0 at (rw (is_c, commit) at e))))
  ]

-- The outcome of a request: refused or not saved, or saved and then visible.
pub data Outcome {D W : Type 0} (request : Option (Policy D → Policy D)) (s s' : Private D W)
    : Bool → Type 0 where
  kept : SamePolicy s s' → Outcome request s s' false
  made :
      (change : Policy D → Policy D)
      → request ≡ some change
      → Committed change s s'
      → Outcome request s s' true

commit-Outcome :
    {D W : Type 0} (change : Policy D → Policy D) (s : Private D W) (w : W)
    → Outcome (some change) s (commit change s w).0 (commit change s w).2
commit-Outcome change s w = elim (Bool-cases (commit change s w).2) [
  | inl y ↦ rw y (made change refl (commit-Committed change s w y))
  | inr n ↦ rw n (kept (commit-SamePolicy change s w n))
]

-- A request that is refused or not saved leaves the visible policy and its provenance as they were;
-- one that succeeds was saved first, and what is visible then is what was saved: the policy that the
-- store held under its lock, or the model's own if the store has none, with the requested change.
pub set_edit-persists :
    {D W : Type 0} (c : Common D) (f : Double D) (e : Edit D) (m : Model D W) (w : W)
    (s : Private D W)
    → m.private ≡ some s
    → (s' : Private D W) × ((set_edit c f e m w).0.private ≡ some s')
      × Outcome (edit_change c f e) s s' (set_edit c f e m w).2
unfolding commit_to
set_edit-persists c f e m w s is_s =
    rw (set_edit-commit c f e m w) (elim (Option-cases (edit_change c f e)) [
      | inl n ↦ rw n (s, is_s, kept (refl, refl, refl, refl))
      | inr (change, is_change) ↦
          rw is_change
            (rw (is_s, commit_to) ((commit change s w).0, refl, commit-Outcome change s w))
    ])
