-- ===== src/SettingsCommand/Locking.antt =====
-- A command gives back the locks that it has taken.
use system_settings.DateTimeModel.Backend.{Backend, Lawful}
use system_settings.DateTimeModel.Defs.{Model}
use system_settings.DateTimeModel.Edits.{draft_new, draft_policy}
use system_settings.DateTimeModel.Updates.{init, model_policy, has_persisted_policy}
use system_settings.LocationMetadata.Defs.{committed, pending, Metadata, MetadataSystem, stage}
use system_settings.LocationMetadata.Files.{LawfulFiles}
use system_settings.LocationMetadata.Untouched.{
  Apart, Untouched, LawfulLocks, metadata_save-count, finish_staged-count,
}
use system_settings.Policy.{Policy, Common, Store}
use system_settings.Prelude.{
  ℕ, ◌+◌, ◌-◌, Bool, false, true, ◌&&◌, not, Option, none, some, List, Bytes, Double, if◌then◌else◌,
  ◌≡◌, inl, inr, refl, ◌∙◌, ap, arith, Bool-cases, Option-cases,
}
use system_settings.SettingsCommand.Main.{
  has_arguments, zeroed, release_locality_transaction, release_platform_update, lock_platform,
  roll_back, commit_metadata, publish, commit_staged, transaction, run_locked, main,
}
use system_settings.SettingsCommand.Options.{Staged, command_touches_location, options}
use system_settings.SettingsCommand.RollingBack.{store_with}
use system_settings.SettingsCommand.Reporting.{Opened, not_opened, opened, init-Opened, clear-world}

module _ {D W : Type 0} (c : Common D) (f : Double D) (sys : MetadataSystem D W)
    (parse_double_range : Bytes → D → D → Option D) (b : Backend D W)
    (compatible : Option (Policy D → W → Bool)) where
  abbrev platform : Option (Store D W)
  platform = some (store_with b compatible)

  module _ (count : W → ℕ) (u : Untouched sys b count) where
    commit_metadata-count :
        (requested cleared : Bool) (w : W)
        → count (commit_metadata c f sys parse_double_range platform requested cleared w).0
          ≡ count w
    unfolding commit_metadata
    commit_metadata-count requested cleared w =
        ground (arith, u.unlink-count committed w, finish_staged-count f sys b count u w)

    roll_back-count :
        (p : Policy D) (persisted staged : Bool) (w : W)
        → count (roll_back c f sys parse_double_range platform p persisted staged w).0 ≡ count w
    unfolding roll_back
    roll_back-count p persisted staged w =
        let saved = (b.write p w).0 in
        let removed = (b.remove w).0 in
        ground (
          arith,
          u.save-count p w,
          u.remove-count w,
          u.unlink-count pending saved,
          u.unlink-count pending removed,
        )

    publish-count :
        (p0 : Policy D) (persisted : Bool) (t : Staged D) (p : Policy D) (w : W)
        → count (publish c f sys parse_double_range platform p0 persisted t p w).world ≡ count w
    unfolding publish
    publish-count p0 persisted t p w =
        let w1 = (b.write p w).0 in
        let w3 =
          (commit_metadata c f sys parse_double_range platform t.change_requested t.clear_requested
            w1).0 in
        ground (
          arith,
          u.save-count p w,
          u.unlink-count pending w1,
          commit_metadata-count t.change_requested t.clear_requested w1,
          roll_back-count p0 persisted (t.change_requested && not t.clear_requested) w3,
        )

    commit_staged-count :
        (p0 : Policy D) (persisted : Bool) (t : Staged D) (w : W)
        → count (commit_staged c f sys parse_double_range platform p0 persisted t w).world ≡ count w
    unfolding commit_staged
    commit_staged-count p0 persisted t w = elim (Option-cases (draft_policy t.draft)) [
      | inl n ↦ ground arith
      | inr (p, d) ↦
          let v : Metadata D = elim t.candidate [
            | none ↦ zeroed c f sys parse_double_range platform
            | some v ↦ v
          ] in
          let w1 = (stage f sys v w).0 in
          ground (
            arith,
            metadata_save-count f sys b count u pending v w,
            publish-count p0 persisted t p w,
            publish-count p0 persisted t p w1,
          )
    ]

    given-count :
        (m : Model D W) (arguments : List Bytes) (w : W) (p : Policy D)
        → model_policy m ≡ some p
        → count (transaction c f sys parse_double_range platform true m arguments w).world ≡ count w
    unfolding transaction draft_new
    given-count m arguments w p e =
        let base : Staged D = record {
          draft = some p;
          change_requested = false;
          clear_requested = false;
          candidate = none;
        } in
        elim (Option-cases (options c f parse_double_range base arguments)) [
          | inl n ↦ ground arith
          | inr (t, o) ↦ ground (arith, commit_staged-count p (has_persisted_policy m) t w)
        ]

    transaction-count :
        (allocated : Bool) (m : Model D W) (arguments : List Bytes) (w : W)
        → count (transaction c f sys parse_double_range platform allocated m arguments w).world
          ≡ count w
    unfolding transaction draft_new
    transaction-count false m arguments w = elim (Option-cases (model_policy m)) [
      | inl n ↦ ground arith
      | inr (p, e) ↦ ground arith
    ]
    transaction-count true m arguments w = elim (Option-cases (model_policy m)) [
      | inl n ↦ ground arith
      | inr (p, e) ↦ given-count m arguments w p e
    ]

    run_locked-world :
        (l : LawfulFiles sys b.read) (lb : Lawful b) (apart : Apart sys b)
        (model_allocated allocated locality platform_locked : Bool) (arguments : List Bytes) (w : W)
        → (v : W) × (count v ≡ count w)
          × ((run_locked c f sys parse_double_range platform model_allocated allocated locality
                platform_locked arguments w).world
              ≡ release_locality_transaction c f sys parse_double_range platform locality
                  (release_platform_update c f sys parse_double_range platform platform_locked v))
    unfolding run_locked
    run_locked-world l lb apart model_allocated allocated locality platform_locked arguments w =
        go (
          init-Opened c f sys parse_double_range b compatible l lb apart model_allocated
            (record { address = 0; private = none }) w refl)
      where
        go :
            Opened c f sys parse_double_range b compatible l lb apart w
              (init c model_allocated (some (record { address = 0; private = none })) platform w)
            → (v : W) × (count v ≡ count w)
              × ((run_locked c f sys parse_double_range platform model_allocated allocated locality
                    platform_locked arguments w).world
                  ≡ release_locality_transaction c f sys parse_double_range platform locality (
                      release_platform_update c f sys parse_double_range platform platform_locked
                        v))
        go (not_opened e n) = (w, refl, ground arith)
        go (opened m s p found r e i k g q) =
            let t = transaction c f sys parse_double_range platform allocated m arguments w in
            let x = release_locality_transaction c f sys parse_double_range platform locality (
              release_platform_update c f sys parse_double_range platform platform_locked
                t.world) in
            (
              t.world,
              transaction-count allocated m arguments w,
              ground
                  (arith, clear-world c f sys parse_double_range b compatible l lb apart m s x i q),
            )

  module _ (l : LawfulFiles sys b.read) (lb : Lawful b) (apart : Apart sys b)
      (locks : LawfulLocks sys b) where
    abbrev one : Bool → ℕ
    one held = if held then 1 else 0

    abbrev unlocked : Bool → Bool → W → W
    unlocked locality platform_locked w =
        release_locality_transaction c f sys parse_double_range platform locality
          (release_platform_update c f sys parse_double_range platform platform_locked w)

    unlocked-held :
        (locality platform_locked : Bool) (w : W)
        → (locks.held (unlocked locality platform_locked w) ≡ locks.held w - one locality)
          × (b.held (unlocked locality platform_locked w) ≡ b.held w - one platform_locked)
    unfolding release_platform_update
    unlocked-held true true w = (
      ground (arith, locks.unlock-held (b.unlock w), locks.policy_unlock-held w),
      ground (arith, locks.unlock-policy_held (b.unlock w), lb.unlock-held w),
    )
    unlocked-held true false w = (locks.unlock-held w, ground (arith, locks.unlock-policy_held w))
    unlocked-held false true w = (ground (arith, locks.policy_unlock-held w), lb.unlock-held w)
    unlocked-held false false w = (omega arith, omega arith)

    locality_locked-held :
        (touching : Bool) (w : W)
        → (let r : W × Bool = if touching then sys.lock w else (w, true) in
            (locks.held r.0 ≡ locks.held w + one (touching && r.1)) × (b.held r.0 ≡ b.held w))
    locality_locked-held true w = elim (Bool-cases (sys.lock w).1) [
      | inl y ↦ (ground (arith, locks.lock-held w y), locks.lock-policy_held w)
      | inr n ↦ (ground (arith, locks.lock_failed-held w n), locks.lock-policy_held w)
    ]
    locality_locked-held false w = (omega arith, refl)

    platform_locked-held :
        (arguments : Bool) (w : W)
        → (let r = lock_platform c f sys parse_double_range platform arguments w in
            (b.held r.0 ≡ b.held w + one r.2)
            × (locks.held r.0 ≡ locks.held w)
            × (r.1 ≡ false → r.2 ≡ false))
    unfolding lock_platform
    platform_locked-held true w = elim (Bool-cases (b.lock w).1) [
      | inl y ↦ (ground (arith, lb.lock-held w y), locks.policy_lock-held w, λ e. e)
      | inr n ↦ (ground (arith, lb.lock_failed-held w n), locks.policy_lock-held w, λ e. e)
    ]
    platform_locked-held false w = (omega arith, refl, λ e. refl)

    run_locked-held :
        (model_allocated allocated locality platform_locked : Bool) (arguments : List Bytes) (w : W)
        → (let w' =
              (run_locked c f sys parse_double_range platform model_allocated allocated locality
                platform_locked arguments w).world in
            (locks.held w' ≡ locks.held w - one locality)
            × (b.held w' ≡ b.held w - one platform_locked))
    run_locked-held model_allocated allocated locality platform_locked arguments w =
        let x =
          run_locked-world locks.held locks.untouched l lb apart model_allocated allocated locality
            platform_locked arguments w in
        let y =
          run_locked-world b.held locks.policy_untouched l lb apart model_allocated allocated
            locality platform_locked arguments w in
        (
          ap locks.held x.2
              ∙ (unlocked-held locality platform_locked x.0).0
              ∙ ap (λ n. n - one locality) x.1,
          ap b.held y.2
              ∙ (unlocked-held locality platform_locked y.0).1
              ∙ ap (λ n. n - one platform_locked) y.1,
        )

    -- A command holds each of the two locks as often at its end as at its start, on every path.
    pub main-held :
        (model_allocated allocated : Bool) (arguments : List Bytes) (w : W)
        → (let w' =
              (main c f sys parse_double_range platform model_allocated allocated arguments
                w).world in
            (locks.held w' ≡ locks.held w) × (b.held w' ≡ b.held w))
    unfolding main release_platform_update
    main-held model_allocated allocated arguments w =
        let touching = command_touches_location arguments in
        let r : W × Bool = if touching then sys.lock w else (w, true) in
        let k = lock_platform c f sys parse_double_range platform (has_arguments arguments) r.0 in
        let x = locality_locked-held touching w in
        let y = platform_locked-held (has_arguments arguments) r.0 in
        let z = run_locked-held model_allocated allocated touching k.2 arguments k.0 in
        let t = unlocked-held touching false k.0 in
        elim (Bool-cases r.1) [
          | inr n ↦
              let e : ((main c f sys parse_double_range platform model_allocated allocated arguments
                    w).world
                  ≡ r.0) =
                ground arith in
              (ap locks.held e ∙ ground (arith, x.0), ap b.held e ∙ x.1)
          | inl go ↦ elim (Bool-cases k.1) [
            | inr n ↦
                let e : ((main c f sys parse_double_range platform model_allocated allocated
                      arguments w).world
                    ≡ unlocked touching false k.0) =
                  ground arith in
                (
                  ap locks.held e ∙ ground (arith, t.0, x.0, y.1),
                  ap b.held e ∙ ground (arith, t.1, x.1, y.0, y.2 n),
                )
            | inl go_on ↦
                let e : ((main c f sys parse_double_range platform model_allocated allocated
                      arguments w).world
                    ≡ (run_locked c f sys parse_double_range platform model_allocated allocated
                        touching k.2 arguments k.0).world) =
                  ground arith in
                (
                  ap locks.held e ∙ ground (arith, z.0, x.0, y.1),
                  ap b.held e ∙ ground (arith, z.1, x.1, y.0),
                )
          ]
        ]
