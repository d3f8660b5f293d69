-- ===== src/Lib.antt =====
-- System Settings: the core of the Date & Time settings of the desktop shell.
--
-- The parts of the program and how they interact:
--   * `include/system-settings/temporal-policy-store.h` is a table of functions through which a
--     program loads, saves and removes the temporal policy document under a cross-process lock. The
--     table and the policy are in Policy.antt; the functions of Infiltrator Common, another
--     repository, are the record `Common` there.
--   * `src/modules/date-time/date-time-model.c` is the model that every program works on: a handle with
--     a copy of the policy, the setters that merge a change into the document of the moment, drafts,
--     the location update that keeps the lock open until it is finished or rolled back, and the life
--     of the handle. DateTimeModel.antt; Backend.antt below it is the interface of a store that keeps
--     its promises, which the theorems on the document take as a parameter.
--   * `src/platform/linux/temporal-policy-store.c` and `cinnamon-interface.c` are that store on Linux
--     with its mirror in the settings of Cinnamon. LinuxStore.antt, over GSettings and Common's files.
--   * `src/platform/linux/linux-advisory-lock.h` is the bounded wait for a lock of the file system, on
--     which the store and the metadata rely. AdvisoryLock.antt, over the system calls.
--   * `src/platform/linux/location-metadata.c` keeps the name of the chosen place in a committed record
--     and in a journal, with the recovery of an interrupted change. LocationMetadata.antt, with
--     `ss_linux_date_time_location_coordinate_close` of
--     `src/modules/date-time/linux-date-time-location.c`.
--   * `src/platform/linux/system-time-service.c` is the asynchronous adapter of timedated.
--     SystemTimeService.antt: its results, the snapshot of the cached properties, and the service
--     object with its references as a step relation over owner, calls and signals.
--   * `src/modules/date-time/manual-time.c` and `native-clock-policy.c` are the entry of a time by hand
--     and the profiles of the clock modes. ManualTime.antt, NativeClock.antt.
--   * `src/tools/time-settings-cli.c` is the command that changes several settings at once: its options,
--     staged on a draft, its two locks, the save with its rollback, and its exit codes. SettingsCommand.antt.
--   * `src/modules/date-time/linux-date-time-location.c` changes the place in the panel, through the model
--     and the records, and a part of `linux-date-time-panel.c` follows the two files and the time zone of
--     the system, and begins and retries the recovery from the construction of the panel on.
--     LocationPanel.antt, without the widgets.
--   * `src/modules/date-time/policy-file-observer.c` watches the file of the policy, or the nearest
--     directory above it that exists, and retries. PolicyFileObserver.antt, over GIO.
--   * `src/platform/linux/location-search.c` asks geocode-glib for places. LocationSearch.antt.
--   * `src/shell/linux/shell-command.c` finds the programs of the system that no other user can replace.
--     ShellCommand.antt, over the file system.
--   * `src/platform/linux/regional-context.c` reads tzdata; its reading of coordinates is
--     RegionalContext.antt.
-- Prelude.antt has the names, tests and lemmas that these share; Tests.antt has runs and the theorems
-- at concrete inputs.
--
-- State and effects. Code outside the repository acts on a world `W`, and a function that may change
-- it returns the new world with its result. A C structure is a record with the source's fields, a
-- pointer that may be NULL is an `Option`, a function of C with outputs returns `none` or them. A C
-- string is the list of its bytes without the terminator, and an array of characters is the text in
-- front of its first NUL. Numbers of type `double` are the record `Double` of Prelude/Floats.antt:
-- IEEE arithmetic is a parameter, in RegionalContext.antt as the record `Arithmetic`. `unsigned int`
-- has 32 bits and wraps.
--
-- Fuel. The loop of the advisory lock is on fuel, one unit for each attempt. The loop repeats an
-- interrupted call without looking at its deadline, so that the fuel which is enough is the budget in
-- microseconds plus the number of interruptions to come, each other attempt being at least a
-- microsecond later. `begin_update` passes the fuel on. The two loops up the parents of a path have the
-- length of the path as fuel, since a parent has the shorter path; the theorems show that it is enough.
--
-- Not modelled: GTK windows, panels and their widgets, the reading of the regional data but for its
-- coordinates, the advice on a time zone, the pending requests of the system time panel, the preview,
-- the home page, the catalogue of modules, the launch of programs, the messages and the printing of the
-- command, the Windows store, and the packaging tools. GLib, GIO, GSettings, GDBus, geocode-glib and
-- Common are parameters, with what is relied on in the records of laws (DateTimeModel/Backend.antt,
-- LinuxStore/Laws.antt, AdvisoryLock/Laws.antt, LocationMetadata/Files.antt,
-- LocationMetadata/Untouched.antt, PolicyFileObserver/Binding.antt, ShellCommand/Trust.antt,
-- LocationSearch/Answers.antt). The detection of the regional context is an arbitrary function.
-- Allocation failure is a flag in the constructors of the model and the draft and nowhere else, since
-- GLib ends the program.
pub mod Prelude
pub mod NativeClock
pub mod Policy
pub mod AdvisoryLock
pub mod LinuxStore
pub mod LocationMetadata
pub mod DateTimeModel
pub mod Tests
pub mod LocationPanel
pub mod LocationSearch
pub mod ManualTime
pub mod PolicyFileObserver
pub mod RegionalContext
pub mod SettingsCommand
pub mod ShellCommand
pub mod SystemTimeService
