-- ===== src/DateTimeModel/Lock.antt =====
-- With a lawful store: what a commit does to the document and to the lock.
use system_settings.DateTimeModel.Backend.{Backend, Lawful, Uses}
use system_settings.DateTimeModel.Defs.{Private, begin_candidate, save_candidate, commit}
use system_settings.Policy.{Policy}
use system_settings.Prelude.{
  Bool, false, true, not, none, some, if◌then◌else◌, ◌≡◌, inl, inr, arith, Option-cases,
}

-- A commit to a store with a lock: the lock, the fresh policy, the write.
pub locked_commit :
    {D W : Type 0} → Backend D W → (Policy D → Policy D) → Private D W → W → Private D W × W × Bool
locked_commit b change s w =
    let (w1, locked) = b.lock w in
    if not locked then (s, w1, false) else elim (b.read w1) [
      | none ↦ (s, b.unlock w1, false)
      | some (p, _) ↦
          let (w2, saved) = b.write (change p) w1 in
          if saved
          then (record s { policy = change p; persisted_policy_present = true }, b.unlock w2, true)
          else (s, b.unlock w2, false)
    ]

module _ {D W : Type 0} (b : Backend D W) where
  pub commit-locked_commit :
      (change : Policy D → Policy D) (s : Private D W) (w : W)
      → Uses b s
      → s.saving ≡ false
      → commit change s w ≡ locked_commit b change s w
  unfolding commit begin_candidate save_candidate locked_commit
  commit-locked_commit change s w u n = ground arith

module _ {D W : Type 0} (b : Backend D W) (l : Lawful b) where
  pub locked_commit-held :
      (change : Policy D → Policy D) (s : Private D W) (w : W)
      → b.held (locked_commit b change s w).1 ≡ b.held w
  unfolding locked_commit
  locked_commit-held change s w = elim (Option-cases (b.read (b.lock w).0)) [
    | inl n ↦ ground (arith, l.lock-held w, l.lock_failed-held w, l.unlock-held (b.lock w).0)
    | inr (r, is_r) ↦
        let w1 = (b.lock w).0 in
        let w2 = (b.write (change r.0) w1).0 in
        ground (
          arith,
          l.lock-held w,
          l.lock_failed-held w,
          l.unlock-held w2,
          l.write-held (change r.0) w1,
        )
  ]

  pub locked_commit-kept :
      (change : Policy D → Policy D) (s : Private D W) (w : W)
      → (locked_commit b change s w).2 ≡ false
      → (b.read (locked_commit b change s w).1 ≡ b.read w) × ((locked_commit b change s w).0 ≡ s)
  unfolding locked_commit
  locked_commit-kept change s w e = elim (Option-cases (b.read (b.lock w).0)) [
    | inl n ↦ (ground (arith, l.lock-read w, l.unlock-read (b.lock w).0), ground arith)
    | inr (r, is_r) ↦
        let w1 = (b.lock w).0 in
        let w2 = (b.write (change r.0) w1).0 in
        (
          ground (arith, l.lock-read w, l.unlock-read w2, l.write_failed-read (change r.0) w1),
          ground arith,
        )
  ]

  pub locked_commit-made :
      (change : Policy D → Policy D) (s : Private D W) (w : W)
      → (locked_commit b change s w).2 ≡ true
      → (p : Policy D) × (found : Bool) × (b.read w ≡ some (p, found))
        × (b.read (locked_commit b change s w).1 ≡ some (change p, true))
        × ((locked_commit b change s w).0
            ≡ record s { policy = change p; persisted_policy_present = true })
  unfolding locked_commit
  locked_commit-made change s w e = elim (Option-cases (b.read (b.lock w).0)) [
    | inl n ↦ absurd (ground arith)
    | inr (r, is_r) ↦
        let w1 = (b.lock w).0 in
        let w2 = (b.write (change r.0) w1).0 in
        (
          r.0,
          r.1,
          ground (arith, l.lock-read w),
          ground (arith, l.unlock-read w2, l.write-read (change r.0) w1),
          ground arith,
        )
  ]
