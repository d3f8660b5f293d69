-- ===== src/AdvisoryLock/Laws.antt =====
-- What the lock relies on in the operating system.
use system_settings.AdvisoryLock.{LockSystem, eintr}
use system_settings.Prelude.{ℕ, ◌+◌, ◌-◌, ◌≤◌, ◌<◌, Bytes, none, some, ◌≡◌}

-- Time passes and sleeping takes its time; descriptors are counted; calls are interrupted finitely
-- often, `interrupts` being how many interruptions are still to come.
pub record LawfulSystem {W : Type 0} (os : LockSystem W) : Type 0 where
  pub slept : W → ℕ
  pub descriptors : W → ℕ
  pub interrupts : W → ℕ
  pub flock-now : (fd : ℕ) (w : W) → os.now w ≤ os.now (os.flock fd w).0
  pub flock-slept : (fd : ℕ) (w : W) → slept (os.flock fd w).0 ≡ slept w
  pub flock-descriptors : (fd : ℕ) (w : W) → descriptors (os.flock fd w).0 ≡ descriptors w
  pub flock-interrupts : (fd : ℕ) (w : W) → interrupts (os.flock fd w).0 ≤ interrupts w
  pub flock_interrupted :
      (fd : ℕ) (w : W)
      → (os.flock fd w).1 ≡ some eintr
      → interrupts (os.flock fd w).0 < interrupts w
  pub sleep-now : (n : ℕ) (w : W) → os.now w + n ≤ os.now (os.sleep n w)
  pub sleep-slept : (n : ℕ) (w : W) → slept (os.sleep n w) ≡ slept w + n
  pub sleep-descriptors : (n : ℕ) (w : W) → descriptors (os.sleep n w) ≡ descriptors w
  pub sleep-interrupts : (n : ℕ) (w : W) → interrupts (os.sleep n w) ≤ interrupts w
  pub close-now : (fd : ℕ) (w : W) → os.now w ≤ os.now (os.close fd w)
  pub close-slept : (fd : ℕ) (w : W) → slept (os.close fd w) ≡ slept w
  pub close-descriptors : (fd : ℕ) (w : W) → descriptors (os.close fd w) ≡ descriptors w - 1
  pub mkdir-now : (path : Bytes) (w : W) → os.now w ≤ os.now (os.mkdir path w).0
  pub mkdir-slept : (path : Bytes) (w : W) → slept (os.mkdir path w).0 ≡ slept w
  pub mkdir-descriptors : (path : Bytes) (w : W) → descriptors (os.mkdir path w).0 ≡ descriptors w
  pub mkdir-interrupts : (path : Bytes) (w : W) → interrupts (os.mkdir path w).0 ≤ interrupts w
  pub chmod-now : (path : Bytes) (w : W) → os.now w ≤ os.now (os.chmod path w).0
  pub chmod-slept : (path : Bytes) (w : W) → slept (os.chmod path w).0 ≡ slept w
  pub chmod-descriptors : (path : Bytes) (w : W) → descriptors (os.chmod path w).0 ≡ descriptors w
  pub chmod-interrupts : (path : Bytes) (w : W) → interrupts (os.chmod path w).0 ≤ interrupts w
  pub open-now : (path : Bytes) (w : W) → os.now w ≤ os.now (os.open_file path w).0
  pub open-slept : (path : Bytes) (w : W) → slept (os.open_file path w).0 ≡ slept w
  pub open-interrupts : (path : Bytes) (w : W) → interrupts (os.open_file path w).0 ≤ interrupts w
  pub open-descriptors :
      (path : Bytes) (w : W) (fd : ℕ)
      → (os.open_file path w).1 ≡ some fd
      → descriptors (os.open_file path w).0 ≡ descriptors w + 1
  pub open_failed-descriptors :
      (path : Bytes) (w : W)
      → (os.open_file path w).1 ≡ none
      → descriptors (os.open_file path w).0 ≡ descriptors w
  pub unlock-descriptors : (fd : ℕ) (w : W) → descriptors (os.unlock fd w) ≡ descriptors w
