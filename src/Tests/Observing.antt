-- ===== src/Tests/Observing.antt =====
-- An observer of "p" in a directory that appears later.
use mathlib.Core.Option.{some-injective}
use system_settings.PolicyFileObserver.Binding.{LawfulFileSystem, Nearest, here}
use system_settings.PolicyFileObserver.Watching.{
  IsTracking, start, Follows, Reachable-IsTracking, monitor_changed-tells, retry_bind-binds,
}
use system_settings.PolicyFileObserver.{
  FileEvent, FileSystem, Observer, observer_new, monitor_changed, retry_bind, is_file, bind_monitor,
  nearest_existing_directory, nearest_from, relevant_event,
}
use system_settings.Prelude.{
  ℕ, ◌+◌, ◌-◌, ◌<◌, Bool, true, false, ◌&&◌, ◌||◌, Option, none, some, [], ◌∷◌, Bytes, codes, equal,
  if◌then◌else◌, length, ◌≡◌, ◌⊎◌, refl, sym, arith,
}

record Tree : Type 0 where
  made : Bool
  written : Bool
  monitors : Bytes → ℕ

-- A path is the list of its names from the last one on.
abbrev parent_of : Bytes → Option Bytes
parent_of (x ∷ y ∷ rest) = some (y ∷ rest)
parent_of _ = none

abbrev gio : FileSystem Tree
gio = record {
  is_directory = λ p w. equal p (codes "/") || w.made && equal p (codes "d/");
  exists = λ p w. w.made && w.written;
  parent = parent_of;
  monitor_directory =
      λ d w. (record w { monitors = λ e. w.monitors e + (if equal d e then 1 else 0) }, true);
  unmonitor = λ d w. record w { monitors = λ e. w.monitors e - (if equal d e then 1 else 0) };
}

parent_of-shorter : (p q : Bytes) → parent_of p ≡ some q → length q < length p
parent_of-shorter [] q e = absurd (ground arith)
parent_of-shorter (x ∷ []) q e = absurd (ground arith)
parent_of-shorter (x ∷ y ∷ rest) q e = rw (sym (some-injective (y ∷ rest) q e)) (omega arith)

abbrev gio-Lawful : LawfulFileSystem gio
gio-Lawful = record {
  parent-shorter = parent_of-shorter;
  monitors = λ e w. w.monitors e;
  monitor-monitors = λ d a w e. refl;
  monitor_failed-monitors = λ d a w e. absurd (ground arith);
  unmonitor-monitors = λ d a w. refl;
  monitor-exists = λ d p w. refl;
  unmonitor-exists = λ d p w. refl;
}

abbrev bare : Tree
bare = record { made = false; written = false; monitors = λ e. 0 }

abbrev path : Bytes
path = codes "pd/"

abbrev at_root : Observer
at_root = record {
  target_file = path;
  target_directory = codes "d/";
  watch_directory = some (codes "/");
  retrying = false;
  target_exists = false;
}

begins : (observer_new gio (some path) bare).0 ≡ some at_root
unfolding observer_new bind_monitor nearest_existing_directory nearest_from equal
begins = refl

Reachable-IsTracking_example :
    IsTracking gio gio-Lawful at_root (observer_new gio (some path) bare).1
Reachable-IsTracking_example =
    Reachable-IsTracking gio gio-Lawful (start path bare at_root (λ d. refl) begins)

-- The directory and the file are there.
abbrev filled : Tree
filled = record {
  made = true;
  written = true;
  monitors = λ e. if equal (codes "/") e then 1 else 0;
}

at_root-IsTracking : IsTracking gio gio-Lawful at_root filled
at_root-IsTracking = record { counted = λ d. refl; covered = refl }

near : Nearest gio gio-Lawful filled (codes "d/") (codes "d/")
unfolding equal
near = here refl

is_relevant : relevant_event FileEvent.created ≡ true
unfolding relevant_event
is_relevant = refl

tells : (monitor_changed gio (some (codes "d/")) none FileEvent.created at_root filled).2 ≡ true
unfolding monitor_changed relevant_event bind_monitor nearest_existing_directory nearest_from equal
tells = refl

monitor_changed-tells_example :
    (let r = monitor_changed gio (some (codes "d/")) none FileEvent.created at_root filled in
      (r.0.target_exists ≡ true)
      × ((r.2 ≡ true)
          ⊎ ((false ≡ r.0.target_exists)
              × (is_file (some (codes "d/")) path ≡ false)
              × (is_file none path ≡ false)))
      × Follows gio gio-Lawful r.0 filled)
monitor_changed-tells_example =
    monitor_changed-tells gio gio-Lawful (some (codes "d/")) none FileEvent.created at_root filled
      (codes "d/") at_root-IsTracking is_relevant near

abbrev waiting : Observer
waiting = record at_root { watch_directory = none; retrying = true }

near_unwatched :
    Nearest gio gio-Lawful (record filled { monitors = λ e. 0 }) (codes "d/") (codes "d/")
unfolding equal
near_unwatched = here refl

retry_bind-binds_example :
    (let r = retry_bind gio waiting (record filled { monitors = λ e. 0 }) in
      (r.2 ≡ false) × (r.0.retrying ≡ false) × (r.0.watch_directory ≡ some (codes "d/")))
retry_bind-binds_example =
    retry_bind-binds gio gio-Lawful waiting (record filled { monitors = λ e. 0 }) (codes "d/")
      (record { counted = λ d. refl; covered = refl }) near_unwatched refl
