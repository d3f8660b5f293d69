-- ===== src/DateTimeModel/Updates.antt =====
-- The two-step location update of the model, which holds the store's lock between its steps, and the
-- life cycle of a model.
use system_settings.DateTimeModel.Defs.{
  Private, Model, store_load, store_save, store_clear, store_begin_update, store_end_update,
  try_load, release_update_lock, begin_candidate,
}
use system_settings.DateTimeModel.Edits.{
  valid_location, assign_location, valid_clock_mode, assign_clock_mode,
}
use system_settings.Policy.{Policy, Common, Store}
use system_settings.Prelude.{
  ℕ, Bool, false, true, ◌&&◌, ◌||◌, not, Option, none, some, Bytes, Double, is_some, if◌then◌else◌,
  ◌==◌,
}

-- `SsDateTimeLocationUpdate`: the model by its address. A NULL token is refused as an active one is by
-- `begin` and as an inactive one by the other two.
pub record LocationUpdate (D : Type 0) : Type 0 where
  pub model : Option ℕ
  pub previous_policy : Policy D
  pub previous_persisted_policy_present : Bool
  pub active : Bool

-- `update->_model == model`
abbrev pub is_for : {D : Type 0} → LocationUpdate D → ℕ → Bool
is_for u address = elim u.model [ none ↦ false | some a ↦ a == address ]

module _ {D W : Type 0} (f : Double D) where
  -- the part behind `begin_candidate`
  unfoldable pub open_location_update :
      Bool
      → D
      → D
      → Policy D
      → Bool
      → LocationUpdate D
      → ℕ
      → Private D W
      → W
      → Private D W × LocationUpdate D × W × Bool
  unfolding release_update_lock
  open_location_update configured latitude longitude p found u address s w =
      let u1 = record u {
        model = some address;
        previous_policy = p;
        previous_persisted_policy_present = found;
        active = false;
      } in
      let candidate = assign_location configured latitude longitude p in
      elim (store_save s) [
        | none ↦ (s, record u1 { model = none }, w, false)
        | some save ↦
            let (w', saved) = save candidate w in
            if not saved
            then (let (s', w'') = release_update_lock s w' in
                (s', record u1 { model = none }, w'', false))
            else (
              record s { policy = candidate; persisted_policy_present = true },
              record u1 { active = true },
              w',
              true,
            )
      ]

  unfoldable pub begin_location_in :
      Bool
      → D
      → D
      → LocationUpdate D
      → ℕ
      → Private D W
      → W
      → Private D W × LocationUpdate D × W × Bool
  unfolding open_location_update
  begin_location_in configured latitude longitude u address s w =
      if u.active
        || not (valid_location f latitude longitude)
        || not (is_some (store_begin_update s))
        || not (is_some (store_end_update s))
        || not (is_some (store_clear s))
      then (s, u, w, false)
      else let (s', w', candidate) = begin_candidate s w in
        elim candidate [
          | none ↦ (s', u, w', false)
          | some (p, found) ↦
              open_location_update configured latitude longitude p found u address s' w'
        ]

  unfoldable pub begin_location_update :
      Bool → D → D → LocationUpdate D → Model D W → W → Model D W × LocationUpdate D × W × Bool
  begin_location_update configured latitude longitude u m w = elim m.private [
    | none ↦ (m, u, w, false)
    | some s ↦
        let (s', u', w', done) = begin_location_in configured latitude longitude u m.address s w in
        (record m { private = some s' }, u', w', done)
  ]

module _ {D W : Type 0} where
  unfoldable pub finish_location_in :
      LocationUpdate D → ℕ → Private D W → W → Private D W × LocationUpdate D × W × Bool
  unfolding release_update_lock
  finish_location_in u address s w =
      if not u.active || not (is_for u address) || not s.saving
      then (s, u, w, false)
      else let (s', w') = release_update_lock s w in
        (s', record u { active = false; model = none }, w', true)

  unfoldable pub finish_location_update :
      LocationUpdate D → Model D W → W → Model D W × LocationUpdate D × W × Bool
  finish_location_update u m w = elim m.private [
    | none ↦ (m, u, w, false)
    | some s ↦
        let (s', u', w', done) = finish_location_in u m.address s w in
        (record m { private = some s' }, u', w', done)
  ]

  -- the write that restores the document: the previous policy, or its absence
  unfoldable pub restore_document : LocationUpdate D → Private D W → W → W × Bool
  restore_document u s w =
      if u.previous_persisted_policy_present
      then elim (store_save s) [ none ↦ (w, false) | some save ↦ save u.previous_policy w ]
      else elim (store_clear s) [ none ↦ (w, false) | some clear ↦ clear w ]

  unfoldable pub rollback_location_in :
      LocationUpdate D → ℕ → Private D W → W → Private D W × LocationUpdate D × W × Bool
  unfolding release_update_lock restore_document
  rollback_location_in u address s w =
      if not u.active || not (is_for u address) || not s.saving || not (is_some s.store)
      then (s, u, w, false)
      else let (w', restored) = restore_document u s w in
        let s' =
          if restored
          then record s {
            policy = u.previous_policy;
            persisted_policy_present = u.previous_persisted_policy_present;
          }
          else s in
        let (s'', w'') = release_update_lock s' w' in
        (s'', record u { active = false; model = none }, w'', restored)

  unfoldable pub rollback_location_update :
      LocationUpdate D → Model D W → W → Model D W × LocationUpdate D × W × Bool
  rollback_location_update u m w = elim m.private [
    | none ↦ (m, u, w, false)
    | some s ↦
        let (s', u', w', done) = rollback_location_in u m.address s w in
        (record m { private = some s' }, u', w', done)
  ]

  -- `ss_date_time_model_policy`, `_has_persisted_policy`, `_is_saving`
  unfoldable pub model_policy : Model D W → Option (Policy D)
  model_policy m = elim m.private [ none ↦ none | some s ↦ some s.policy ]

  unfoldable pub has_persisted_policy : Model D W → Bool
  has_persisted_policy m = elim m.private [ none ↦ false | some s ↦ s.persisted_policy_present ]

  unfoldable pub is_saving : Model D W → Bool
  is_saving m = elim m.private [ none ↦ false | some s ↦ s.saving ]

  unfoldable pub clear : Model D W → W → Model D W × W
  unfolding release_update_lock
  clear m w = elim m.private [
    | none ↦ (m, w)
    | some s ↦ (record m { private = none }, (release_update_lock s w).1)
  ]

module _ {D W : Type 0} (c : Common D) where
  unfoldable pub reload_in : Private D W → W → Private D W × Bool
  reload_in s w =
      if not (is_some (store_load s)) || s.saving || not (is_some c.policy_default)
      then (s, false)
      else elim (try_load s w) [
        | none ↦ (s, false)
        | some (p, found) ↦ (record s { policy = p; persisted_policy_present = found }, true)
      ]

  unfoldable pub reload : Model D W → W → Model D W × Bool
  reload m w = elim m.private [
    | none ↦ (m, false)
    | some s ↦ let (s', done) = reload_in s w in (record m { private = some s' }, done)
  ]

  -- the store's table may be used: `load`, `save`, and both lock hooks or neither
  abbrev pub store_complete : Store D W → Bool
  store_complete t =
      is_some t.load
      && is_some t.save
      && (if is_some t.begin_update then is_some t.end_update else not (is_some t.end_update))

  -- `allocated` says whether `calloc` gave memory; `model` and `store` may be NULL.
  unfoldable pub init :
      Bool → Option (Model D W) → Option (Store D W) → W → Option (Model D W) × W × Bool
  unfolding reload clear
  init allocated none store w = (none, w, false)
  init allocated (some m) none w = (some m, w, false)
  init allocated (some m) (some store) w =
      if is_some m.private || not (store_complete store) || not allocated
      then (some m, w, false)
      else elim c.policy_default [
        | none ↦ (some m, w, false)
        | some p ↦
            let opened = record m {
              private = some (record {
                policy = p;
                store = some store;
                persisted_policy_present = false;
                saving = false;
              });
            } in
            let (m', loaded) = reload opened w in
            if loaded
            then (some m', w, true)
            else let (m'', w') = clear m' w in (some m'', w', false)
      ]

  unfoldable pub normalize_unpersisted_clock_mode : Option Bytes → Model D W → Model D W × Bool
  normalize_unpersisted_clock_mode mode m = elim m.private [
    | none ↦ (m, false)
    | some s ↦ elim (valid_clock_mode c mode) [
      | none ↦ (m, false)
      | some id ↦ if s.saving || s.persisted_policy_present then (m, false) else (
        record m { private = some (record s { policy = assign_clock_mode c id s.policy }) },
        true,
      )
    ]
  ]
