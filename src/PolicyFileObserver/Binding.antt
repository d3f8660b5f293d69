-- ===== src/PolicyFileObserver/Binding.antt =====
-- The directory that is watched is the nearest one, and a monitor is never lost.
use mathlib.Core.Path.{subst}
use system_settings.PolicyFileObserver.{
  Observer, FileSystem, nearest_from, nearest_existing_directory, bind_monitor, is_file, unwatch,
}
use system_settings.Prelude.{
  ℕ, zero, suc, ◌+◌, ◌-◌, ◌<◌, Bool, false, true, Option, none, some, Bytes, length, if◌then◌else◌,
  equal, equal_iff, ◌≡◌, ◌↔◌, inl, inr, refl, ap, ◌∙◌, arith, Option-cases, Bool-cases,
}

-- What GIO documents: a parent has the shorter path, and a monitor only looks.
pub record LawfulFileSystem {W : Type 0} (fs : FileSystem W) : Type 0 where
  pub parent-shorter : (p q : Bytes) → fs.parent p ≡ some q → length q < length p
  -- how many monitors of the observer live on a directory
  pub monitors : Bytes → W → ℕ
  pub monitor-monitors :
      (d e : Bytes) (w : W)
      → (fs.monitor_directory d w).1 ≡ true
      → monitors e (fs.monitor_directory d w).0 ≡ monitors e w + (if equal d e then 1 else 0)
  pub monitor_failed-monitors :
      (d e : Bytes) (w : W)
      → (fs.monitor_directory d w).1 ≡ false
      → monitors e (fs.monitor_directory d w).0 ≡ monitors e w
  pub unmonitor-monitors :
      (d e : Bytes) (w : W)
      → monitors e (fs.unmonitor d w) ≡ monitors e w - (if equal d e then 1 else 0)
  pub monitor-exists :
      (d p : Bytes) (w : W) → fs.exists p (fs.monitor_directory d w).0 ≡ fs.exists p w
  pub unmonitor-exists : (d p : Bytes) (w : W) → fs.exists p (fs.unmonitor d w) ≡ fs.exists p w

module _ {W : Type 0} (fs : FileSystem W) (l : LawfulFileSystem fs) where
  -- `d` is the first directory from `p` upwards.
  pub data Nearest (w : W) : Bytes → Bytes → Type 0 where
    here : {p : Bytes} → fs.is_directory p w ≡ true → Nearest w p p
    above :
        {p q d : Bytes}
        → fs.is_directory p w ≡ false
        → fs.parent p ≡ some q
        → Nearest w q d
        → Nearest w p d

  nearest_from-Nearest :
      (fuel : ℕ) (p d : Bytes) (w : W) → nearest_from fs fuel p w ≡ some d → Nearest w p d
  unfolding nearest_from
  nearest_from-Nearest zero p d w e = absurd (ground arith)
  nearest_from-Nearest (suc fuel) p d w e = elim (Bool-cases (fs.is_directory p w)) [
    | inl y ↦ let same : (p ≡ d) = ground arith in subst (Nearest w p) same (here y)
    | inr n ↦ elim (Option-cases (fs.parent p)) [
      | inl root ↦ absurd (ground arith)
      | inr (q, is_q) ↦ above n is_q (nearest_from-Nearest fuel q d w (ground arith))
    ]
  ]

  Nearest-nearest_from :
      (fuel : ℕ) {p d : Bytes} (w : W)
      → length p < fuel
      → Nearest w p d
      → nearest_from fs fuel p w ≡ some d
  unfolding nearest_from
  Nearest-nearest_from zero w enough n = absurd (omega arith)
  Nearest-nearest_from (suc fuel) w enough (here y) = ground arith
  Nearest-nearest_from (suc fuel) w enough (above {p = p} {q = q} n is_q rest) =
      let shorter = l.parent-shorter p q is_q in
      let later = Nearest-nearest_from fuel w (omega (arith, shorter, enough)) rest in ground arith

  -- The search upwards finds a directory exactly if there is one, and then the nearest.
  pub upwards-exact :
      (o : Observer) (d : Bytes) (w : W)
      → (nearest_existing_directory fs o w ≡ some d) ↔ Nearest w o.target_directory d
  unfolding nearest_existing_directory
  upwards-exact o d w = (
    nearest_from-Nearest (suc (length o.target_directory)) o.target_directory d w,
    Nearest-nearest_from (suc (length o.target_directory)) w (omega arith),
  )

  abbrev one_at : Option Bytes → Bytes → ℕ
  one_at none e = 0
  one_at (some d) e = if equal d e then 1 else 0

  -- There is one monitor on the directory that the observer watches, and none on any other.
  abbrev pub HasOwnMonitor : Observer → W → Type 0
  HasOwnMonitor o w = (e : Bytes) → l.monitors e w ≡ one_at o.watch_directory e

  -- What a binding does: the nearest directory is watched and no retry runs unless it was watched before,
  -- or the observer is as before with a retry.
  pub data Bound (o : Observer) (w : W) (o' : Observer) (w' : W) : Bool → Type 0 where
    kept :
        (d : Bytes)
        → Nearest w o.target_directory d
        → o.watch_directory ≡ some d
        → o' ≡ o
        → Bound o w o' w' true
    moved :
        (d : Bytes)
        → Nearest w o.target_directory d
        → o' ≡ record o { watch_directory = some d; retrying = false }
        → Bound o w o' w' true
    retried : o' ≡ record o { retrying = true } → Bound o w o' w' false

  unwatch-monitors :
      (x : Option Bytes) (e : Bytes) (n : ℕ) (w : W)
      → l.monitors e w ≡ one_at x e + n
      → l.monitors e (unwatch fs x w) ≡ n
  unwatch-monitors none e n w k = k ∙ omega arith
  unwatch-monitors (some d) e n w k = l.unmonitor-monitors d e w ∙ omega (arith, k)

  unwatch-exists :
      (x : Option Bytes) (p : Bytes) (w : W) → fs.exists p (unwatch fs x w) ≡ fs.exists p w
  unwatch-exists none p w = refl
  unwatch-exists (some d) p w = l.unmonitor-exists d p w

  pub is_file-some : (x : Option Bytes) (d : Bytes) → is_file x d ≡ true → x ≡ some d
  is_file-some none d e = absurd (ground arith)
  is_file-some (some c) d e = ap some ((equal_iff c d).0 e)

  pub bind_monitor-Bound :
      (o : Observer) (w : W)
      → HasOwnMonitor o w
      → (let r = bind_monitor fs o w in
          Bound o w r.0 r.1 r.2
          × HasOwnMonitor r.0 r.1
          × (fs.exists o.target_file r.1 ≡ fs.exists o.target_file w))
  unfolding bind_monitor
  bind_monitor-Bound o w m = elim (Option-cases (nearest_existing_directory fs o w)) [
    | inl n ↦ rw (n, bind_monitor) (retried refl, m, refl)
    | inr (d, e) ↦
        let near = (upwards-exact o d w).0 e in
        let seen = l.monitor-exists d o.target_file w in
        rw (e, bind_monitor)
          (elim (Bool-cases (is_file o.watch_directory d)) [
            | inl y ↦ rw y (kept d near (is_file-some o.watch_directory d y) refl, m, refl)
            | inr n ↦ elim (Bool-cases (fs.monitor_directory d w).1) [
              | inr k ↦
                  rw (n, k) (retried refl, (λ a. l.monitor_failed-monitors d a w k ∙ m a), seen)
              | inl k ↦
                  rw (n, k)
                    (
                      moved d near refl,
                      (λ a. unwatch-monitors o.watch_directory a _ _ (
                          l.monitor-monitors d a w k
                          ∙ ap (λ c. c + (if equal d a then 1 else 0)) (m a))),
                      unwatch-exists o.watch_directory o.target_file _ ∙ seen,
                    )
            ]
          ])
  ]
