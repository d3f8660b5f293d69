-- ===== src/AdvisoryLock/Acquire.antt =====
-- Acquiring and releasing the advisory lock.
use mathlib.Core.Path.{subst}
use system_settings.AdvisoryLock.Laws.{LawfulSystem}
use system_settings.AdvisoryLock.Wait.{Ended, got, gave_up, failed, wait_for_lock-Waited}
use system_settings.AdvisoryLock.{
  LockSystem, LockState, LockResult, acquired, io_error, already_held, wait_for_lock, acquire,
  release, bounded_wait, max_wait_usec, eexist,
}
use system_settings.Prelude.{
  ℕ, ◌+◌, ◌-◌, ◌≤◌, ◌<◌, true, not, ◌||◌, Option, none, some, Bytes, is_empty, ℤ, pos_part, ◌==◌,
  ◌≡◌, ◌≢◌, inl, inr, refl, ◌∙◌, arith, Option-cases, Bool-cases,
}

module _ {W : Type 0} (os : LockSystem W) (l : LawfulSystem os) where
  -- The lock holds a descriptor that is open, or is as it was, with nothing left open.
  pub data Holds (lock : LockState) (w : W) : LockState → W → LockResult → Type 0 where
    taken :
        {fd : ℕ} {w' : W}
        → lock ≡ none
        → l.descriptors w' ≡ l.descriptors w + 1
        → Holds lock w (some fd) w' acquired
    not_taken :
        {w' : W} {r : LockResult}
        → r ≢ acquired
        → l.descriptors w' ≡ l.descriptors w
        → Holds lock w lock w' r

  pub record Attempt (lock : LockState) (w : W) (r : Option (LockState × W × LockResult))
      : Type 0 where
    pub lock' : LockState
    pub world : W
    pub result : LockResult
    pub returns : r ≡ some (lock', world, result)
    pub holds : Holds lock w lock' world result
    pub budget : l.slept world ≤ l.slept w + max_wait_usec

  at_once :
      (lock : LockState) (w w' : W) (result : LockResult) {r : Option (LockState × W × LockResult)}
      → r ≡ some (lock, w', result)
      → result ≢ acquired
      → l.descriptors w' ≡ l.descriptors w
      → l.slept w' ≡ l.slept w
      → Attempt lock w r
  at_once lock w w' result e n d b = record {
    lock' = lock;
    world = w';
    result = result;
    returns = e;
    holds = not_taken n d;
    budget = omega arith;
  }

  Ended-Holds :
      {fd bounded deadline : ℕ} {v w w' : W} {lock : LockState} {r : LockResult}
      → l.descriptors v ≡ l.descriptors w + 1
      → Ended os l fd bounded deadline v lock w' r
      → Holds none w lock w' r
  Ended-Holds e (got d) = taken refl (omega arith)
  Ended-Holds e (gave_up d t) = not_taken (λ x. ground arith) (omega arith)
  Ended-Holds e (failed d) = not_taken (λ x. ground arith) (omega arith)

  module _ (fuel : ℕ) (directory path : Bytes) (wait_usec retry_usec : ℤ) (w : W) where
    abbrev w1 : W
    w1 = (os.mkdir directory w).0

    abbrev w2 : W
    w2 = (os.chmod directory w1).0

    abbrev w3 : W
    w3 = (os.open_file path w2).0

    same_slept : (l.slept w1 ≡ l.slept w) × (l.slept w2 ≡ l.slept w) × (l.slept w3 ≡ l.slept w)
    same_slept =
        omega (arith, l.mkdir-slept directory w, l.chmod-slept directory w1, l.open-slept path w2)

    same_descriptors : (l.descriptors w1 ≡ l.descriptors w) × (l.descriptors w2 ≡ l.descriptors w)
    same_descriptors =
        omega (arith, l.mkdir-descriptors directory w, l.chmod-descriptors directory w1)

    w3_later : (os.now w ≤ os.now w3) × (l.interrupts w3 ≤ l.interrupts w)
    w3_later = omega (
      arith,
      l.mkdir-now directory w,
      l.chmod-now directory w1,
      l.open-now path w2,
      l.mkdir-interrupts directory w,
      l.chmod-interrupts directory w1,
      l.open-interrupts path w2,
    )

    opened-Attempt :
        (fd : ℕ)
        → (os.open_file path w2).1 ≡ some fd
        → bounded_wait os wait_usec + l.interrupts w < fuel
        → Attempt none w (
            wait_for_lock os fuel fd
              (bounded_wait os wait_usec)
              (os.now w + bounded_wait os wait_usec)
              (pos_part retry_usec)
              w3)
    opened-Attempt fd is_open enough =
        let deadline = os.now w + bounded_wait os wait_usec in
        let h =
          wait_for_lock-Waited os l fuel fd (bounded_wait os wait_usec) deadline
            (pos_part retry_usec) w3 (omega (arith, w3_later)) in
        record {
          lock' = h.lock;
          world = h.world;
          result = h.result;
          returns = h.returns;
          holds =
              Ended-Holds (omega (arith, same_descriptors, l.open-descriptors path w2 fd is_open))
                h.ended;
          budget = omega (arith, h.budget, same_slept, w3_later);
        }

    -- What `acquire` does with both paths given, for an empty lock.
    empty-Attempt :
        bounded_wait os wait_usec + l.interrupts w < fuel
        → Attempt none w (acquire os fuel none (some directory) (some path) wait_usec retry_usec w)
    unfolding acquire
    empty-Attempt enough = elim (Bool-cases (is_empty directory || is_empty path)) [
      | inl y ↦ at_once none w w io_error (ground arith) (λ x. ground arith) refl refl
      | inr n ↦
          elim (Bool-cases
            (not (elim (os.mkdir directory w).1 [ none ↦ true | some errno ↦ errno == eexist ]))) [
              | inl no_directory ↦
                  at_once none w w1 io_error (ground arith) (λ x. ground arith) same_descriptors.0
                    same_slept.0
              | inr made ↦ elim (Option-cases (os.chmod directory w1).1) [
                | inr (errno, no_mode) ↦
                    at_once none w w2 io_error (ground arith) (λ x. ground arith) same_descriptors.1
                      same_slept.1
                | inl changed ↦ elim (Option-cases (os.open_file path w2).1) [
                  | inl no_file ↦
                      at_once none w w3 io_error (ground arith) (λ x. ground arith)
                        (l.open_failed-descriptors path w2 no_file ∙ same_descriptors.1)
                        same_slept.2
                  | inr (fd, is_open) ↦
                      subst (Attempt none w) (ground arith) (opened-Attempt fd is_open enough)
                ]
              ]
            ]
    ]

  -- With fuel for the budget and the interruptions to come, acquiring returns: with a descriptor held
  -- that was not held before, or with the lock as it was and every descriptor it opened closed; and it
  -- sleeps at most the fixed budget, however long a wait was asked for.
  pub acquire-Attempt :
      (fuel : ℕ) (lock : LockState) (directory path : Option Bytes) (wait_usec retry_usec : ℤ)
      (w : W)
      → bounded_wait os wait_usec + l.interrupts w < fuel
      → Attempt lock w (acquire os fuel lock directory path wait_usec retry_usec w)
  unfolding acquire
  acquire-Attempt fuel none (some directory) (some path) wait_usec retry_usec w enough =
      empty-Attempt fuel directory path wait_usec retry_usec w enough
  acquire-Attempt fuel lock none path wait_usec retry_usec w enough =
      at_once lock w w io_error refl (λ x. ground arith) refl refl
  acquire-Attempt fuel lock (some directory) none wait_usec retry_usec w enough =
      at_once lock w w io_error refl (λ x. ground arith) refl refl
  acquire-Attempt fuel (some fd) (some directory) (some path) wait_usec retry_usec w enough =
      elim (Bool-cases (is_empty directory || is_empty path)) [
        | inl y ↦ at_once (some fd) w w io_error (ground arith) (λ x. ground arith) refl refl
        | inr n ↦ at_once (some fd) w w already_held (ground arith) (λ x. ground arith) refl refl
      ]

  -- Releasing a lock that was acquired empties it and closes the descriptor; an empty lock stays.
  pub release-descriptors :
      (lock : LockState) (w : W)
      → ((release os lock w).0 ≡ none)
        × (l.descriptors (release os lock w).1
            ≡ l.descriptors w - (elim lock [ none ↦ 0 | some fd ↦ 1 ]))
  unfolding release
  release-descriptors none w = (refl, omega arith)
  release-descriptors (some fd) w =
      (refl, l.close-descriptors fd (os.unlock fd w) ∙ omega (arith, l.unlock-descriptors fd w))
