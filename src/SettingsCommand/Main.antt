-- ===== src/SettingsCommand/Main.antt =====
-- `main`, behind the options: the two locks, the staging, the save and the rollback. What is printed is
-- the policy of the last lines; messages on the error output are left out.
use system_settings.DateTimeModel.Defs.{Model}
use system_settings.DateTimeModel.Edits.{draft_new, draft_policy}
use system_settings.DateTimeModel.Updates.{init, model_policy, has_persisted_policy, clear}
use system_settings.LocationMetadata.Defs as Record
use system_settings.LocationMetadata.Defs.{
  Metadata, MetadataSystem, stage, discard_staged, finish_staged,
}
use system_settings.Policy.{Policy, Common, Store}
use system_settings.Prelude.{
  ℕ, Bool, false, true, ◌&&◌, not, Option, none, some, List, [], ◌∷◌, Bytes, Double, if◌then◌else◌,
}
use system_settings.SettingsCommand.Options.{Staged, command_touches_location, options}

-- the exit code, and what is printed, `none` if the code is not 0
pub record Run (D W : Type 0) : Type 0 where
  pub world : W
  pub exit_code : ℕ
  pub output : Option (Policy D × Bool)

-- `argc > 1`
abbrev pub has_arguments : List Bytes → Bool
has_arguments [] = false
has_arguments (a ∷ rest) = true

module _ {D W : Type 0} (c : Common D) (f : Double D) (sys : MetadataSystem D W)
    (parse_double_range : Bytes → D → D → Option D) (platform : Option (Store D W)) where
  -- `SsLocationMetadata location_candidate = {0}`
  abbrev pub zeroed : Metadata D
  zeroed = record {
    display_name = [];
    country_code = [];
    timezone_id = [];
    latitude = f.nought;
    longitude = f.nought;
  }

  abbrev pub release_locality_transaction : Bool → W → W
  release_locality_transaction locked w = if locked then sys.unlock w else w

  -- `release_platform_update`
  unfoldable pub release_platform_update : Bool → W → W
  release_platform_update locked w = elim platform [
    | none ↦ w
    | some store ↦ elim store.end_update [ none ↦ w | some end ↦ if locked then end w else w ]
  ]

  -- The policy lock for a command with arguments: whether to go on, and whether it is held.
  unfoldable pub lock_platform : Bool → W → W × Bool × Bool
  lock_platform arguments w = elim platform [
    | none ↦ (w, true, false)
    | some store ↦ elim store.begin_update [
      | none ↦ (w, true, false)
      | some begin ↦
          let begun = begin w in
          if not arguments then (w, true, false) else elim store.end_update [
            | none ↦ (w, false, false)
            | some end ↦ (begun.0, begun.1, begun.1)
          ]
    ]
  ]

  abbrev pub save_platform : Policy D → W → W × Bool
  save_platform p w = elim platform [
    | none ↦ (w, false)
    | some store ↦ elim store.save [ none ↦ (w, false) | some save ↦ save p w ]
  ]

  abbrev pub clear_platform : W → W × Bool
  clear_platform w = elim platform [
    | none ↦ (w, false)
    | some store ↦ elim store.clear [ none ↦ (w, false) | some clear ↦ clear w ]
  ]

  abbrev pub compatible : Policy D → W → Bool
  compatible p w = elim platform [
    | none ↦ true
    | some store ↦ elim store.compatibility_matches [ none ↦ true | some test ↦ test p w ]
  ]

  -- the metadata that could not be committed: the previous policy state is restored
  unfoldable pub roll_back : Policy D → Bool → Bool → W → W × Bool
  roll_back original persisted staged w =
      let (w1, rolled_back) = if persisted then save_platform original w else clear_platform w in
      if rolled_back && staged then ((discard_staged f sys w1).0, true) else (w1, rolled_back)

  -- the metadata behind the save of the policy
  unfoldable pub commit_metadata : Bool → Bool → W → W × Bool
  commit_metadata requested cleared w =
      if not requested
      then (w, true)
      else if cleared
      then Record.clear f sys w
      else finish_staged f sys w

  -- with the journal in place: the save, the metadata and the compatibility
  unfoldable pub publish : Policy D → Bool → Staged D → Policy D → W → Run D W
  unfolding roll_back commit_metadata
  publish original persisted t candidate w =
      let staged = t.change_requested && not t.clear_requested in
      let (w1, saved) = save_platform candidate w in
      let w2 = if staged then (discard_staged f sys w1).0 else w1 in
      let (w3, committed) = commit_metadata t.change_requested t.clear_requested w1 in
      let (w4, rolled_back) = roll_back original persisted staged w3 in
      if not saved
      then record { world = w2; exit_code = 2; output = none }
      else if not committed
      then record { world = w4; exit_code = 3; output = none }
      else if not (compatible candidate w3)
      then record { world = w3; exit_code = 3; output = none }
      else record { world = w3; exit_code = 0; output = some (candidate, true) }

  -- behind the loop over the options, with arguments
  unfoldable pub commit_staged : Policy D → Bool → Staged D → W → Run D W
  unfolding publish
  commit_staged original persisted t w = elim (draft_policy t.draft) [
    | none ↦ record { world = w; exit_code = 2; output = none }
    | some candidate ↦
        let (w1, journalled) = stage f sys (elim t.candidate [ none ↦ zeroed | some v ↦ v ]) w in
        if not (t.change_requested && not t.clear_requested)
        then publish original persisted t candidate w
        else if not journalled
        then record { world = w1; exit_code = 2; output = none }
        else publish original persisted t candidate w1
  ]

  -- between the locks, with the model; `allocated` says whether `calloc` gave the draft's memory
  unfoldable pub transaction : Bool → Model D W → List Bytes → W → Run D W
  unfolding commit_staged
  transaction allocated m arguments w = elim (model_policy m) [
    | none ↦ record { world = w; exit_code = 1; output = none }
    | some p ↦
        let persisted = has_persisted_policy m in
        let base : Staged D = record {
          draft = draft_new allocated (some p);
          change_requested = false;
          clear_requested = false;
          candidate = none;
        } in
        elim base.draft [
          | none ↦ record { world = w; exit_code = 1; output = none }
          | some q ↦ elim (options c f parse_double_range base arguments) [
            | none ↦ record { world = w; exit_code = 2; output = none }
            | some t ↦
                let committed = commit_staged p persisted t w in
                if has_arguments arguments
                then committed
                else record { world = w; exit_code = 0; output = some (p, persisted) }
          ]
        ]
  ]

  -- behind the locks, whose holding is given
  unfoldable pub run_locked : Bool → Bool → Bool → Bool → List Bytes → W → Run D W
  unfolding transaction release_platform_update
  run_locked model_allocated allocated locality_locked platform_locked arguments w =
      let fresh : Model D W = record { address = 0; private = none } in
      let (opened, w1, initialised) = init c model_allocated (some fresh) platform w in
      let model = elim opened as (λ x. Model D W) [ none ↦ fresh | some m ↦ m ] in
      let r = transaction allocated model arguments w1 in
      let w2 = release_platform_update platform_locked r.world in
      if not initialised
      then record {
        world =
            release_locality_transaction locality_locked
              (release_platform_update platform_locked w1);
        exit_code = 1;
        output = none;
      }
      else record r { world = (clear model (release_locality_transaction locality_locked w2)).1 }

  unfoldable pub main : Bool → Bool → List Bytes → W → Run D W
  unfolding lock_platform run_locked
  main model_allocated allocated arguments w =
      let touching = command_touches_location arguments in
      let (w1, locality) = if touching then sys.lock w else (w, true) in
      let (w2, go_on, platform_locked) = lock_platform (has_arguments arguments) w1 in
      if not locality
      then record { world = w1; exit_code = 2; output = none }
      else if not go_on
      then record { world = release_locality_transaction touching w2; exit_code = 2; output = none }
      else run_locked model_allocated allocated touching platform_locked arguments w2
