-- ===== src/PolicyFileObserver/Watching.antt =====
-- The life of an observer: it watches or tries again, it tells of every change, and it binds when it can.
use mathlib.Core.Option.{some-injective}
use mathlib.Core.Path.{subst}
use system_settings.PolicyFileObserver.Binding.{
  LawfulFileSystem, Nearest, upwards-exact, HasOwnMonitor, Bound, kept, moved, retried,
  bind_monitor-Bound, is_file-some,
}
use system_settings.PolicyFileObserver.{
  FileEvent, Observer, FileSystem, relevant_event, nearest_existing_directory, bind_monitor,
  monitor_changed, retry_bind, observer_new, is_file,
}
use system_settings.Prelude.{
  Bool, false, true, ◌||◌, not, Option, none, some, Bytes, is_some, is_empty, if◌then◌else◌, ◌≡◌,
  ◌⊎◌, inl, inr, refl, sym, ap, ◌∙◌, arith, Option-cases, Bool-cases,
}

module _ {W : Type 0} (fs : FileSystem W) (l : LawfulFileSystem fs) where
  -- The observer has the monitor of the directory that it watches, and no other; without one it retries.
  pub record IsTracking (o : Observer) (w : W) : Type 0 where
    pub counted : HasOwnMonitor fs l o w
    pub covered : is_some o.watch_directory || o.retrying ≡ true

  -- The observer watches the nearest directory, or it retries.
  pub data Follows (o : Observer) (w : W) : Type 0 where
    nearest :
        (d : Bytes) → Nearest fs l w o.target_directory d → o.watch_directory ≡ some d → Follows o w
    later : o.retrying ≡ true → Follows o w

  flag : (x : Option Bytes) → is_some x || true ≡ true
  flag none = refl
  flag (some d) = refl

  Bound-covered :
      {o o' : Observer} {w w' : W} {done : Bool}
      → Bound fs l o w o' w' done
      → is_some o'.watch_directory || o'.retrying ≡ true
  Bound-covered (kept d n e s) = rw (s, e) refl
  Bound-covered (moved d n s) = rw s refl
  Bound-covered {o = o} (retried s) = rw s (flag (o.watch_directory))

  bind_monitor-IsTracking :
      (o : Observer) (w : W)
      → HasOwnMonitor fs l o w
      → IsTracking (bind_monitor fs o w).0 (bind_monitor fs o w).1
  bind_monitor-IsTracking o w m =
      let u = bind_monitor-Bound fs l o w m in
      record { counted = u.1; covered = Bound-covered (u.0) }

  -- An observer that is being watched over time: events, ticks of its timer, and changes from outside.
  pub data Step (o : Observer) (w : W) : Observer → W → Type 0 where
    event :
        (file other_file : Option Bytes) (e : FileEvent)
        → Step o w
            (monitor_changed fs file other_file e o w).0
            (monitor_changed fs file other_file e o w).1
    tick : o.retrying ≡ true → Step o w (retry_bind fs o w).0 (retry_bind fs o w).1
    outside : (w' : W) → ((d : Bytes) → l.monitors d w' ≡ l.monitors d w) → Step o w o w'

  pub data Reachable : Observer → W → Type 0 where
    start :
        (path : Bytes) (w : W) (o : Observer)
        → ((d : Bytes) → l.monitors d w ≡ 0)
        → (observer_new fs (some path) w).0 ≡ some o
        → Reachable o (observer_new fs (some path) w).1
    then_step : {o o' : Observer} {w w' : W} → Reachable o w → Step o w o' w' → Reachable o' w'

  -- A retry, behind the binding.
  retried-IsTracking :
      (o : Observer) (w : W) (r : Observer × W × Bool)
      → Bound fs l o w r.0 r.1 r.2
      → HasOwnMonitor fs l r.0 r.1
      → (let q : Observer × W × Bool =
            if r.2 then (record (r.0) { retrying = false }, r.1, false) else (r.0, r.1, true) in
          IsTracking q.0 q.1 × (q.2 ≡ q.0.retrying))
  retried-IsTracking o w (o', w', true) (kept d n e s) m =
      (record { counted = m; covered = rw (s, e) refl }, refl)
  retried-IsTracking o w (o', w', true) (moved d n s) m =
      (record { counted = m; covered = rw s refl }, refl)
  retried-IsTracking o w (o', w', false) (retried s) m = (
    record { counted = m; covered = Bound-covered {o = o} {w = w} {w' = w'} (retried s) },
    rw s refl,
  )

  -- After a retry the observer is tracking, and the timer goes on exactly if it is needed.
  retry_bind-IsTracking :
      (o : Observer) (w : W)
      → HasOwnMonitor fs l o w
      → IsTracking (retry_bind fs o w).0 (retry_bind fs o w).1
        × ((retry_bind fs o w).2 ≡ (retry_bind fs o w).0.retrying)
  unfolding retry_bind
  retry_bind-IsTracking o w m =
      let u = bind_monitor-Bound fs l o w m in
      retried-IsTracking o w (bind_monitor fs o w) (u.0) (u.1)

  new_bound :
      (o : Observer) (w : W) (r : Observer × W × Bool)
      → Bound fs l o w r.0 r.1 r.2
      → HasOwnMonitor fs l r.0 r.1
      → (let q : Option Observer × W =
            if r.2 then (some r.0, r.1) else (some (record (r.0) { retrying = true }), r.1) in
          (made : Observer) → q.0 ≡ some made → IsTracking made q.1)
  new_bound o w (o', w', true) x m made e =
      subst (λ z. IsTracking z w') (some-injective o' made e)
        (record { counted = m; covered = Bound-covered x })
  new_bound o w (o', w', false) x m made e =
      subst (λ z. IsTracking z w') (some-injective _ made e)
        (record { counted = m; covered = flag o'.watch_directory })

  new-IsTracking :
      (path : Bytes) (w : W) (o : Observer)
      → ((d : Bytes) → l.monitors d w ≡ 0)
      → (observer_new fs (some path) w).0 ≡ some o
      → IsTracking o (observer_new fs (some path) w).1
  unfolding observer_new
  new-IsTracking path w o m e = elim (Bool-cases (is_empty path)) [
    | inl y ↦ absurd (ground arith)
    | inr n ↦ elim (Option-cases (fs.parent path)) [
      | inl root ↦ absurd (ground arith)
      | inr (d, is_d) ↦
          let made : Observer = record {
            target_file = path;
            target_directory = d;
            watch_directory = none;
            retrying = false;
            target_exists = fs.exists path w;
          } in
          let u = bind_monitor-Bound fs l made w m in
          let r = bind_monitor fs made w in
          let q : Option Observer × W =
            if r.2 then (some r.0, r.1) else (some (record (r.0) { retrying = true }), r.1) in
          let is_q : (observer_new fs (some path) w ≡ q) = rw (n, is_d, observer_new) refl in
          subst (λ z. IsTracking o z.1) (sym is_q)
            (new_bound made w r (u.0) (u.1) o (ap (λ z. z.0) (sym is_q) ∙ e))
    ]
  ]

  -- The part of an event in front of the test for the target.
  rebind : Observer → W → Observer × W × Bool
  rebind o w = elim (nearest_existing_directory fs o w) as (λ x. Observer × W × Bool) [
    | none ↦ (o, w, false)
    | some desired ↦
        if is_file o.watch_directory desired then (o, w, false) else bind_monitor fs o w
  ]

  -- After it, the observer tracks, follows, and sees the target as before.
  rebind-IsTracking :
      (o : Observer) (w : W)
      → IsTracking o w
      → IsTracking (rebind o w).0 (rebind o w).1
        × (fs.exists o.target_file (rebind o w).1 ≡ fs.exists o.target_file w)
  unfolding rebind
  rebind-IsTracking o w t = elim (Option-cases (nearest_existing_directory fs o w)) [
    | inl n ↦ rw (n, rebind) (t, refl)
    | inr (d, e) ↦ elim (Bool-cases (is_file o.watch_directory d)) [
      | inl y ↦ rw (e, y, rebind) (t, refl)
      | inr n ↦
          let u = bind_monitor-Bound fs l o w (t.counted) in
          rw (e, n, rebind) (bind_monitor-IsTracking o w (t.counted), u.2)
    ]
  ]

  monitor_changed-IsTracking :
      (file other_file : Option Bytes) (e : FileEvent) (o : Observer) (w : W)
      → IsTracking o w
      → IsTracking
          (monitor_changed fs file other_file e o w).0
          (monitor_changed fs file other_file e o w).1
  unfolding monitor_changed rebind
  monitor_changed-IsTracking file other_file e o w t = elim (Bool-cases (relevant_event e)) [
    | inr n ↦ rw (n, monitor_changed) t
    | inl y ↦
        let u = rebind-IsTracking o w t in
        rw (y, monitor_changed) (record { counted = u.0.counted; covered = u.0.covered })
  ]

  Step-IsTracking :
      {o : Observer} {w : W} {o' : Observer} {w' : W}
      → Step o w o' w'
      → IsTracking o w
      → IsTracking o' w'
  Step-IsTracking (event file other_file e) t = monitor_changed-IsTracking file other_file e _ _ t
  Step-IsTracking (tick y) t = (retry_bind-IsTracking _ _ t.counted).0
  Step-IsTracking (outside w' e) t = record {
    counted = λ d. e d ∙ t.counted d;
    covered = t.covered;
  }

  -- From its creation on, through events, ticks and changes from outside, an observer that watches a
  -- directory has one monitor on it and none on any other directory; one that watches none has no monitor,
  -- and its timer runs.
  pub Reachable-IsTracking : {o : Observer} {w : W} → Reachable o w → IsTracking o w
  Reachable-IsTracking (start path w o m e) = new-IsTracking path w o m e
  Reachable-IsTracking (then_step r s) = Step-IsTracking s (Reachable-IsTracking r)

  Follows-seen :
      {o : Observer} {w : W} (b : Bool) → Follows o w → Follows (record o { target_exists = b }) w
  Follows-seen b (nearest d n e) = nearest d n e
  Follows-seen b (later y) = later y

  Bound-Follows :
      {o : Observer} {w : W} {o' : Observer} {w' : W} {done : Bool}
      → Bound fs l o w o' w' done
      → Follows o' w
  Bound-Follows {o = o} {w = w} (kept d n e s) = rw s (nearest d n e)
  Bound-Follows {o = o} {w = w} (moved d n s) = rw s (nearest d n refl)
  Bound-Follows {o = o} {w = w} (retried s) = rw s (later refl)

  rebind-Follows :
      (o : Observer) (w : W) (d : Bytes)
      → IsTracking o w
      → Nearest fs l w o.target_directory d
      → Follows (rebind o w).0 w
  unfolding rebind
  rebind-Follows o w d t n =
      let e = (upwards-exact fs l o d w).1 n in
      elim (Bool-cases (is_file o.watch_directory d)) [
        | inl y ↦ rw (e, y, rebind) (nearest d n (is_file-some fs l o.watch_directory d y))
        | inr x ↦ rw (e, x, rebind) (Bound-Follows ((bind_monitor-Bound fs l o w (t.counted)).0))
      ]

  told :
      (named other old now rebound : Bool)
      → (((named || other) || (if old then not now else now) || rebound) ≡ true)
        ⊎ ((old ≡ now) × (named ≡ false) × (other ≡ false))
  told true other old now rebound = inl refl
  told false true old now rebound = inl refl
  told false false true true rebound = inr (refl, refl, refl)
  told false false true false rebound = inl refl
  told false false false true rebound = inl refl
  told false false false false rebound = inr (refl, refl, refl)

  -- An event that matters sets whether the target is there; the callback is called, unless that is as it
  -- was before and the event does not name the target; and the observer watches the nearest directory or
  -- tries again, if there is a directory above the target at all.
  pub monitor_changed-tells :
      (file other_file : Option Bytes) (e : FileEvent) (o : Observer) (w : W) (d : Bytes)
      → IsTracking o w
      → relevant_event e ≡ true
      → Nearest fs l w o.target_directory d
      → (let r = monitor_changed fs file other_file e o w in
          (r.0.target_exists ≡ fs.exists o.target_file w)
          × ((r.2 ≡ true)
              ⊎ ((o.target_exists ≡ r.0.target_exists)
                  × (is_file file o.target_file ≡ false)
                  × (is_file other_file o.target_file ≡ false)))
          × Follows r.0 w)
  unfolding monitor_changed rebind
  monitor_changed-tells file other_file e o w d t y n =
      rw (y, monitor_changed)
        (
          (rebind-IsTracking o w t).1,
          told (is_file file o.target_file) (is_file other_file o.target_file) o.target_exists _ _,
          Follows-seen _ (rebind-Follows o w d t n),
        )

  -- A retry at a moment when the nearest directory can be monitored ends the retries: that directory is
  -- watched and the timer is gone.
  pub retry_bind-binds :
      (o : Observer) (w : W) (d : Bytes)
      → IsTracking o w
      → Nearest fs l w o.target_directory d
      → (fs.monitor_directory d w).1 ≡ true
      → (let r = retry_bind fs o w in
          (r.2 ≡ false) × (r.0.retrying ≡ false) × (r.0.watch_directory ≡ some d))
  unfolding retry_bind bind_monitor
  retry_bind-binds o w d t n k =
      let e = (upwards-exact fs l o d w).1 n in
      elim (Bool-cases (is_file o.watch_directory d)) [
        | inl y ↦
            rw (e, y, retry_bind, bind_monitor)
              (refl, refl, is_file-some fs l o.watch_directory d y)
        | inr x ↦ rw (e, x, k, retry_bind, bind_monitor) (refl, refl, refl)
      ]
