-- ===== src/AdvisoryLock.antt =====
-- src/platform/linux/linux-advisory-lock.h: the bounded wait for an exclusive flock. The operating
-- system is a parameter: calls that change a world `W`, with `none` for success or an errno. The loop
-- is on fuel, since a call that is interrupted is repeated without looking at the deadline.
pub mod Laws
pub mod Wait
pub mod Acquire
use system_settings.Prelude.{
  ℕ, zero, suc, ◌+◌, ◌-◌, Bool, false, true, ◌&&◌, ◌||◌, not, Option, none, some, Bytes, is_empty,
  is_some, if◌then◌else◌, leb, ◌==◌, ℤ, pos_part,
}
use Prim.Native.Nat.{min, max}

-- The errno values of Linux that the loop tells apart; EWOULDBLOCK is EAGAIN there.
abbrev pub eintr : ℕ
eintr = 4

abbrev pub eagain : ℕ
eagain = 11

abbrev pub eexist : ℕ
eexist = 17

pub record LockSystem (W : Type 0) : Type 0 where
  -- `g_mkdir_with_parents (directory, 0700)`, `g_chmod (directory, 0700)`
  pub mkdir : Bytes → W → W × Option ℕ
  pub chmod : Bytes → W → W × Option ℕ
  -- `open`: the descriptor, or `none` for a negative result
  pub open_file : Bytes → W → W × Option ℕ
  -- `flock (fd, LOCK_EX | LOCK_NB)`, `flock (fd, LOCK_UN)`, `close`
  pub flock : ℕ → W → W × Option ℕ
  pub unlock : ℕ → W → W
  pub close : ℕ → W → W
  -- `g_get_monotonic_time`, `g_usleep`
  pub now : W → ℕ
  pub sleep : ℕ → W → W

pub data LockResult : Type 0 where
  acquired busy io_error already_held : LockResult

-- `SsLinuxAdvisoryLock`: the descriptor, `none` for -1
abbrev pub LockState : Type 0
LockState = Option ℕ

abbrev pub max_wait_usec : ℕ
max_wait_usec = 50000

module _ {W : Type 0} (os : LockSystem W) where
  -- The loop behind `open`; `none` if the fuel runs out.
  unfoldable pub wait_for_lock : ℕ → ℕ → ℕ → ℕ → ℕ → W → Option (LockState × W × LockResult)
  wait_for_lock zero fd bounded deadline retry w = none
  wait_for_lock (suc fuel) fd bounded deadline retry w =
      let (w1, failure) = os.flock fd w in
      elim failure [
        | none ↦ some (some fd, w1, acquired)
        | some errno ↦
            let again = wait_for_lock fuel fd bounded deadline retry w1 in
            let remaining = deadline - os.now w1 in
            let later =
              wait_for_lock fuel fd bounded deadline retry
                (os.sleep (min (max retry 1) remaining) w1) in
            if errno == eintr
            then again
            else if not (errno == eagain)
            then some (none, os.close fd w1, io_error)
            else if bounded == 0 || remaining == 0
            then some (none, os.close fd w1, busy)
            else later
      ]

  abbrev pub bounded_wait : ℤ → ℕ
  bounded_wait wait_usec = min (pos_part wait_usec) max_wait_usec

  -- `acquire`, with an absent path or lock as `none`; the first component is the lock afterwards.
  unfoldable pub acquire :
      ℕ → LockState → Option Bytes → Option Bytes → ℤ → ℤ → W → Option (LockState × W × LockResult)
  acquire fuel lock none path wait_usec retry_usec w = some (lock, w, io_error)
  acquire fuel lock (some directory) none wait_usec retry_usec w = some (lock, w, io_error)
  acquire fuel lock (some directory) (some path) wait_usec retry_usec w =
      let deadline = os.now w + bounded_wait wait_usec in
      if is_empty directory || is_empty path
      then some (lock, w, io_error)
      else if is_some lock
      then some (lock, w, already_held)
      else let (w1, made) = os.mkdir directory w in
        if not (elim made [ none ↦ true | some errno ↦ errno == eexist ])
        then some (lock, w1, io_error)
        else let (w2, changed) = os.chmod directory w1 in
          if is_some changed
          then some (lock, w2, io_error)
          else let (w3, opened) = os.open_file path w2 in
            elim opened [
              | none ↦ some (lock, w3, io_error)
              | some fd ↦
                  wait_for_lock fuel fd (bounded_wait wait_usec) deadline (pos_part retry_usec) w3
            ]

  unfoldable pub release : LockState → W → LockState × W
  release none w = (none, w)
  release (some fd) w = (none, os.close fd (os.unlock fd w))
