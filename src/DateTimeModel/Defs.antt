-- ===== src/DateTimeModel/Defs.antt =====
-- The state of the model and the operations that the setters share.
use system_settings.Policy.{Policy, Store}
use system_settings.Prelude.{
  ℕ, Bool, false, true, ◌||◌, not, Option, none, some, is_some, if◌then◌else◌,
}

pub record Private (D W : Type 0) : Type 0 where
  pub policy : Policy D
  pub store : Option (Store D W)
  pub persisted_policy_present : Bool
  pub saving : Bool

-- The address stands for the handle's identity, which location updates compare.
pub record Model (D W : Type 0) : Type 0 where
  pub address : ℕ
  pub private : Option (Private D W)

module _ {D W : Type 0} where
  -- `private_state->store->f` after the test that `store` is not NULL
  abbrev pub store_load : Private D W → Option (W → Option (Policy D × Bool))
  store_load s = elim s.store [ none ↦ none | some t ↦ t.load ]

  abbrev pub store_save : Private D W → Option (Policy D → W → W × Bool)
  store_save s = elim s.store [ none ↦ none | some t ↦ t.save ]

  abbrev pub store_clear : Private D W → Option (W → W × Bool)
  store_clear s = elim s.store [ none ↦ none | some t ↦ t.clear ]

  abbrev pub store_begin_update : Private D W → Option (W → W × Bool)
  store_begin_update s = elim s.store [ none ↦ none | some t ↦ t.begin_update ]

  abbrev pub store_end_update : Private D W → Option (W → W)
  store_end_update s = elim s.store [ none ↦ none | some t ↦ t.end_update ]

  -- the call of `load`, with a NULL function as a failure
  abbrev pub try_load : Private D W → W → Option (Policy D × Bool)
  try_load s w = elim (store_load s) [ none ↦ none | some load ↦ load w ]

  -- `end_update` if both hooks are there
  unfoldable pub call_end_update : Private D W → W → W
  call_end_update s w = elim (store_end_update s) [
    | none ↦ w
    | some end ↦ if is_some (store_begin_update s) then end w else w
  ]

  unfoldable pub release_update_lock : Private D W → W → Private D W × W
  unfolding call_end_update
  release_update_lock s w =
      if not s.saving then (s, w) else (record s { saving = false }, call_end_update s w)

  -- behind `saving = true`
  unfoldable pub fetch_candidate : Private D W → W → Private D W × W × Option (Policy D × Bool)
  unfolding release_update_lock
  fetch_candidate s w = elim (store_begin_update s) [
    | none ↦ (s, w, some (s.policy, s.persisted_policy_present))
    | some begin ↦
        let (w', locked) = begin w in
        if not locked then (record s { saving = false }, w', none) else elim (try_load s w') [
          | none ↦ let (s', w'') = release_update_lock s w' in (s', w'', none)
          | some found ↦ (s, w', some found)
        ]
  ]

  -- The candidate with `found`, or `none` for false.
  unfoldable pub begin_candidate : Private D W → W → Private D W × W × Option (Policy D × Bool)
  unfolding fetch_candidate
  begin_candidate s w =
      if not (is_some (store_save s)) || s.saving
      then (s, w, none)
      else fetch_candidate (record s { saving = true }) w

  unfoldable pub save_candidate : Private D W → Policy D → W → Private D W × W × Bool
  unfolding release_update_lock
  save_candidate s candidate w = if not s.saving then (s, w, false) else elim (store_save s) [
    | none ↦ (s, w, false)
    | some save ↦
        let (w', saved) = save candidate w in
        let (s', w'') = release_update_lock s w' in
        if not saved
        then (s', w'', false)
        else (record s' { policy = candidate; persisted_policy_present = true }, w'', true)
  ]

  -- What each setter does once its argument is valid: begin, change the candidate, save.
  unfoldable pub commit : (Policy D → Policy D) → Private D W → W → Private D W × W × Bool
  commit change s w =
      let (s', w', candidate) = begin_candidate s w in
      elim candidate [ none ↦ (s', w', false) | some (p, _) ↦ save_candidate s' (change p) w' ]

  unfoldable pub commit_to : (Policy D → Policy D) → Model D W → W → Model D W × W × Bool
  commit_to change m w = elim m.private [
    | none ↦ (m, w, false)
    | some s ↦ let (s', w', done) = commit change s w in (record m { private = some s' }, w', done)
  ]
