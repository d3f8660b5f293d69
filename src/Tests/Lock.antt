-- ===== src/Tests/Lock.antt =====
-- The advisory lock over a clock, a count of descriptors and another process that keeps the lock for a
-- while.
use system_settings.AdvisoryLock.Acquire.{Attempt, acquire-Attempt}
use system_settings.AdvisoryLock.Laws.{LawfulSystem}
use system_settings.AdvisoryLock.{wait_for_lock, LockSystem, acquired, busy, acquire, eintr, eagain}
use system_settings.Prelude.{
  ℕ, ◌+◌, ◌-◌, Option, none, some, codes, if◌then◌else◌, ltb, ◌==◌, ◌≡◌, refl, arith, pos, not,
}

record Process : Type 0 where
  pub clock : ℕ
  pub asleep : ℕ
  pub open_count : ℕ
  pub signals : ℕ
  pub busy_until : ℕ

abbrev try_lock : Process → Process × Option ℕ
try_lock w =
    if not (w.signals == 0)
    then (record w { signals = w.signals - 1 }, some eintr)
    else if ltb w.clock w.busy_until
    then (w, some eagain)
    else (w, none)

abbrev process : LockSystem Process
process = record {
  mkdir = λ path w. (w, none);
  chmod = λ path w. (w, none);
  open_file = λ path w. (record w { open_count = w.open_count + 1 }, some 3);
  flock = λ fd. try_lock;
  unlock = λ fd w. w;
  close = λ fd w. record w { open_count = w.open_count - 1 };
  now = λ w. w.clock;
  sleep = λ n w. record w { clock = w.clock + n; asleep = w.asleep + n };
}

process-Lawful : LawfulSystem process
process-Lawful = record {
  slept = λ w. w.asleep;
  descriptors = λ w. w.open_count;
  interrupts = λ w. w.signals;
  flock-now = λ fd w. ground arith;
  flock-slept = λ fd w. ground arith;
  flock-descriptors = λ fd w. ground arith;
  flock-interrupts = λ fd w. ground arith;
  flock_interrupted = λ fd w e. ground arith;
  sleep-now = λ n w. omega arith;
  sleep-slept = λ n w. refl;
  sleep-descriptors = λ n w. refl;
  sleep-interrupts = λ n w. omega arith;
  close-now = λ fd w. omega arith;
  close-slept = λ fd w. refl;
  close-descriptors = λ fd w. refl;
  mkdir-now = λ path w. omega arith;
  mkdir-slept = λ path w. refl;
  mkdir-descriptors = λ path w. refl;
  mkdir-interrupts = λ path w. omega arith;
  chmod-now = λ path w. omega arith;
  chmod-slept = λ path w. refl;
  chmod-descriptors = λ path w. refl;
  chmod-interrupts = λ path w. omega arith;
  open-now = λ path w. omega arith;
  open-slept = λ path w. refl;
  open-interrupts = λ path w. omega arith;
  open-descriptors = λ path w fd e. refl;
  open_failed-descriptors = λ path w e. absurd (ground arith);
  unlock-descriptors = λ fd w. refl;
}

-- Interrupted once, with the lock taken by another process until the time 8 or 100.
abbrev soon : Process
soon = record { clock = 0; asleep = 0; open_count = 2; signals = 1; busy_until = 8 }

abbrev late : Process
late = record soon { busy_until = 100 }

waits :
    acquire process 20 none (some (codes "d")) (some (codes "p")) (pos 10) (pos 5) soon
    ≡ some (
      some 3,
      record { clock = 10; asleep = 10; open_count = 3; signals = 0; busy_until = 8 },
      acquired,
    )
unfolding acquire wait_for_lock
waits = refl

gives_up :
    acquire process 20 none (some (codes "d")) (some (codes "p")) (pos 10) (pos 5) late
    ≡ some (
      none,
      record { clock = 10; asleep = 10; open_count = 2; signals = 0; busy_until = 100 },
      busy,
    )
unfolding acquire wait_for_lock
gives_up = refl

acquire-Attempt_example :
    Attempt process process-Lawful none soon
      (acquire process 20 none (some (codes "d")) (some (codes "p")) (pos 10) (pos 5) soon)
unfolding process-Lawful
acquire-Attempt_example =
    acquire-Attempt process process-Lawful 20 none (some (codes "d")) (some (codes "p")) (pos 10)
      (pos 5) soon (omega arith)
