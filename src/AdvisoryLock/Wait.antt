-- ===== src/AdvisoryLock/Wait.antt =====
-- The waiting loop ends, gives back what it opened, and sleeps no longer than its budget.
use Prim.Native.Nat.{min, max}
use system_settings.AdvisoryLock.Laws.{LawfulSystem}
use system_settings.AdvisoryLock.{
  LockSystem, LockState, LockResult, acquired, busy, io_error, wait_for_lock, eintr, eagain,
}
use system_settings.Prelude.{
  ℕ, zero, suc, ◌+◌, ◌-◌, ◌≤◌, ◌<◌, ◌||◌, Option, none, some, ◌==◌, ◌≡◌, ◌⊎◌, inl, inr, ◌∙◌, arith,
  Option-cases, Bool-cases,
}

module _ {W : Type 0} (os : LockSystem W) (l : LawfulSystem os) where
  -- How the loop ends: the descriptor is kept, or it is closed and the lock stays empty.
  pub data Ended (fd bounded deadline : ℕ) (w : W) : LockState → W → LockResult → Type 0 where
    got :
        {w' : W}
        → l.descriptors w' ≡ l.descriptors w
        → Ended fd bounded deadline w (some fd) w' acquired
    gave_up :
        {w' : W}
        → l.descriptors w' ≡ l.descriptors w - 1
        → (bounded ≡ 0) ⊎ (deadline ≤ os.now w')
        → Ended fd bounded deadline w none w' busy
    failed :
        {w' : W}
        → l.descriptors w' ≡ l.descriptors w - 1
        → Ended fd bounded deadline w none w' io_error

  pub record Waited (fd bounded deadline : ℕ) (w : W) (r : Option (LockState × W × LockResult))
      : Type 0 where
    pub lock : LockState
    pub world : W
    pub result : LockResult
    pub returns : r ≡ some (lock, world, result)
    pub ended : Ended fd bounded deadline w lock world result
    pub budget : l.slept world ≤ l.slept w + (deadline - os.now w)

  Ended-earlier :
      {fd bounded deadline : ℕ} {v w : W} {lock : LockState} {w' : W} {r : LockResult}
      → l.descriptors v ≡ l.descriptors w
      → Ended fd bounded deadline v lock w' r
      → Ended fd bounded deadline w lock w' r
  Ended-earlier e (got d) = got (omega arith)
  Ended-earlier e (gave_up d t) = gave_up (omega arith) t
  Ended-earlier e (failed d) = failed (omega arith)

  -- The loop goes on from a later world.
  Waited-earlier :
      {fd bounded deadline : ℕ} {v w : W} {r r' : Option (LockState × W × LockResult)}
      → r' ≡ r
      → l.descriptors v ≡ l.descriptors w
      → l.slept v + (deadline - os.now v) ≤ l.slept w + (deadline - os.now w)
      → Waited fd bounded deadline v r
      → Waited fd bounded deadline w r'
  Waited-earlier e d b h = record {
    lock = h.lock;
    world = h.world;
    result = h.result;
    returns = e ∙ h.returns;
    ended = Ended-earlier d h.ended;
    budget = omega (arith, h.budget);
  }

  pub wait_for_lock-Waited :
      (fuel fd bounded deadline retry : ℕ) (w : W)
      → deadline - os.now w + l.interrupts w < fuel
      → Waited fd bounded deadline w (wait_for_lock os fuel fd bounded deadline retry w)
  unfolding wait_for_lock
  wait_for_lock-Waited zero fd bounded deadline retry w enough = absurd (omega arith)
  wait_for_lock-Waited (suc fuel) fd bounded deadline retry w enough =
      elim (Option-cases (os.flock fd w).1) [
        | inl ok ↦ record {
          lock = some fd;
          world = (os.flock fd w).0;
          result = acquired;
          returns = ground arith;
          ended = got (l.flock-descriptors fd w);
          budget = omega (arith, l.flock-slept fd w);
        }
        | inr (errno, failure) ↦ elim (Bool-cases (errno == eintr)) [
          | inl interrupted ↦
              let later : l.interrupts (os.flock fd w).0 < l.interrupts w =
                l.flock_interrupted fd w (ground arith) in
              Waited-earlier (ground arith) (l.flock-descriptors fd w)
                (omega (arith, l.flock-slept fd w, l.flock-now fd w))
                (wait_for_lock-Waited fuel fd bounded deadline retry (os.flock fd w).0
                  (omega (arith, later, l.flock-now fd w)))
          | inr n ↦ elim (Bool-cases (errno == eagain)) [
            | inr n' ↦ record {
              lock = none;
              world = os.close fd (os.flock fd w).0;
              result = io_error;
              returns = ground arith;
              ended = failed (
                  omega
                    (arith, l.flock-descriptors fd w, l.close-descriptors fd (os.flock fd w).0));
              budget = omega (arith, l.flock-slept fd w, l.close-slept fd (os.flock fd w).0);
            }
            | inl would_block ↦
                elim (Bool-cases (bounded == 0 || deadline - os.now (os.flock fd w).0 == 0)) [
                  | inl expired ↦ record {
                    lock = none;
                    world = os.close fd (os.flock fd w).0;
                    result = busy;
                    returns = ground arith;
                    ended =
                        gave_up
                          (omega (
                            arith,
                            l.flock-descriptors fd w,
                            l.close-descriptors fd (os.flock fd w).0,
                          ))
                          (ground (arith, l.close-now fd (os.flock fd w).0));
                    budget = omega (arith, l.flock-slept fd w, l.close-slept fd (os.flock fd w).0);
                  }
                  | inr time_left ↦
                      let w1 = (os.flock fd w).0 in
                      let left : (0 < deadline - os.now w1) = ground arith in
                      let n = min (max retry 1) (deadline - os.now w1) in
                      Waited-earlier (ground arith)
                        (l.sleep-descriptors n w1 ∙ l.flock-descriptors fd w)
                        (omega (
                          arith,
                          left,
                          l.flock-slept fd w,
                          l.flock-now fd w,
                          l.sleep-slept n w1,
                          l.sleep-now n w1,
                        ))
                        (wait_for_lock-Waited fuel fd bounded deadline retry (os.sleep n w1) (
                          omega (
                            arith,
                            left,
                            l.flock-now fd w,
                            l.flock-interrupts fd w,
                            l.sleep-now n w1,
                            l.sleep-interrupts n w1,
                          )))
                ]
          ]
        ]
      ]
