-- ===== src/PolicyFileObserver.antt =====
-- src/modules/date-time/policy-file-observer.c: the observation of one file through a monitor on the
-- nearest directory that exists. GIO is a parameter: what the file system shows in a world `W`, the
-- monitors, and the timers of the main loop. The memory of the observer and GLib's references are left
-- out.
pub mod Binding
pub mod Watching
use system_settings.Prelude.{
  ℕ, zero, suc, Bool, false, true, ◌&&◌, ◌||◌, not, Option, none, some, Bytes, equal, is_empty,
  is_some, length, if◌then◌else◌,
}

-- `GFileMonitorEvent`
pub data FileEvent : Type 0 where
  changed changes_done_hint deleted created attribute_changed pre_unmount unmounted moved renamed
        moved_in moved_out :
      FileEvent

unfoldable pub relevant_event : FileEvent → Bool
relevant_event FileEvent.pre_unmount = false
relevant_event FileEvent.unmounted = false
relevant_event _ = true

-- A file is its path, which `g_file_equal` compares.
pub record FileSystem (W : Type 0) : Type 0 where
  -- `g_file_query_file_type (...) == G_FILE_TYPE_DIRECTORY`, `g_file_query_exists`
  pub is_directory : Bytes → W → Bool
  pub exists : Bytes → W → Bool
  -- `g_file_get_parent`, `none` at the root
  pub parent : Bytes → Option Bytes
  -- `g_file_monitor_directory`: whether there is a monitor now
  pub monitor_directory : Bytes → W → W × Bool
  -- the destruction of the monitor of a directory
  pub unmonitor : Bytes → W → W

-- `struct SsPolicyFileObserver`: the monitor is there as long as the directory that it watches, and
-- `retry_id` is whether the timer runs.
pub record Observer : Type 0 where
  pub target_file : Bytes
  pub target_directory : Bytes
  pub watch_directory : Option Bytes
  pub retrying : Bool
  pub target_exists : Bool

abbrev pub is_file : Option Bytes → Bytes → Bool
is_file none target = false
is_file (some file) target = equal file target

module _ {W : Type 0} (fs : FileSystem W) where
  -- The loop, from `candidate` on; each parent is shorter, so that the length of the path is fuel enough.
  unfoldable pub nearest_from : ℕ → Bytes → W → Option Bytes
  nearest_from zero candidate w = none
  nearest_from (suc fuel) candidate w =
      let above = fs.parent candidate in
      if fs.is_directory candidate w
      then some candidate
      else elim above [ none ↦ none | some directory ↦ nearest_from fuel directory w ]

  unfoldable pub nearest_existing_directory : Observer → W → Option Bytes
  unfolding nearest_from
  nearest_existing_directory o w =
      nearest_from (suc (length o.target_directory)) o.target_directory w

  abbrev pub schedule_retry : Observer → Observer
  schedule_retry o = record o { retrying = true }

  abbrev pub unwatch : Option Bytes → W → W
  unwatch none w = w
  unwatch (some directory) w = fs.unmonitor directory w

  unfoldable pub bind_monitor : Observer → W → Observer × W × Bool
  unfolding nearest_existing_directory
  bind_monitor o w = elim (nearest_existing_directory o w) [
    | none ↦ (schedule_retry o, w, false)
    | some directory ↦
        let (w1, monitored) = fs.monitor_directory directory w in
        if is_file o.watch_directory directory
        then (o, w, true)
        else if not monitored
        then (schedule_retry o, w1, false)
        else (
          record o { watch_directory = some directory; retrying = false },
          unwatch o.watch_directory w1,
          true,
        )
  ]

  -- `monitor_changed`: the last component is whether the callback is called.
  unfoldable pub monitor_changed :
      Option Bytes → Option Bytes → FileEvent → Observer → W → Observer × W × Bool
  unfolding bind_monitor relevant_event
  monitor_changed file other_file event o w =
      let target_event = is_file file o.target_file || is_file other_file o.target_file in
      let (o1, w1, rebound) = elim (nearest_existing_directory o w) as (λ x. Observer × W × Bool) [
        | none ↦ (o, w, false)
        | some desired ↦
            if is_file o.watch_directory desired then (o, w, false) else bind_monitor o w
      ] in
      let exists = fs.exists o.target_file w1 in
      let differs = if o.target_exists then not exists else exists in
      if not (relevant_event event) then (o, w, false) else (
        record o1 { target_exists = exists },
        w1,
        target_event || differs || (rebound && exists),
      )

  -- `retry_bind`: the timer stays if the last component is true.
  unfoldable pub retry_bind : Observer → W → Observer × W × Bool
  unfolding bind_monitor
  retry_bind o w =
      let (o1, w1, bound) = bind_monitor o w in
      if bound then (record o1 { retrying = false }, w1, false) else (o1, w1, true)

  -- `ss_policy_file_observer_new`, with a callback
  unfoldable pub observer_new : Option Bytes → W → Option Observer × W
  unfolding bind_monitor
  observer_new none w = (none, w)
  observer_new (some path) w = if is_empty path then (none, w) else elim (fs.parent path) [
    | none ↦ (none, w)
    | some directory ↦
        let o : Observer = record {
          target_file = path;
          target_directory = directory;
          watch_directory = none;
          retrying = false;
          target_exists = fs.exists path w;
        } in
        let (o1, w1, bound) = bind_monitor o w in
        if bound then (some o1, w1) else (some (schedule_retry o1), w1)
  ]

  -- `ss_policy_file_observer_free`, with the timer and the monitor
  unfoldable pub observer_free : Observer → W → W
  observer_free o w = unwatch o.watch_directory w
