-- ===== src/ShellCommand.antt =====
-- src/shell/linux/shell-command.c: the lookup of a system program that no other user can replace, and
-- its launch. The file system, GLib's functions on paths and the spawning are parameters.
pub mod Trust
pub mod Lookup
use system_settings.Prelude.{
  ℕ, zero, suc, ◌*◌, ◌/◌, ◌%◌, Bool, false, true, ◌&&◌, ◌||◌, not, Option, none, some, List, [],
  ◌∷◌, Bytes, codes, equal, is_empty, length, if◌then◌else◌, ◌==◌,
}

-- `struct stat`, the part that is looked at
pub record FileStatus : Type 0 where
  pub mode : ℕ
  pub uid : ℕ

pub record FileTree : Type 0 where
  -- `g_stat`, `none` for a result that is not 0
  pub stat : Bytes → Option FileStatus
  -- `realpath (path, NULL)`
  pub realpath : Bytes → Option Bytes
  -- `g_file_test (path, G_FILE_TEST_IS_EXECUTABLE)`
  pub is_executable : Bytes → Bool
  -- `g_path_is_absolute`, `g_path_get_dirname`, `g_build_filename`
  pub is_absolute : Bytes → Bool
  pub dirname : Bytes → Bytes
  pub build_filename : Bytes → Bytes → Bytes

-- `S_IFMT` of a mode is its bits from 12 on, which are 4 for a directory and 8 for a regular file.
abbrev pub is_dir : ℕ → Bool
is_dir mode = mode / 4096 % 16 == 4

abbrev pub is_regular : ℕ → Bool
is_regular mode = mode / 4096 % 16 == 8

-- neither `S_IWGRP`, bit 4, nor `S_IWOTH`, bit 1
unfoldable pub mode_is_trusted : ℕ → Bool
mode_is_trusted mode = mode / 16 % 2 == 0 && mode / 2 % 2 == 0

abbrev pub separator : Bytes
separator = codes "/"

abbrev pub directories : List Bytes
directories =
    codes "/usr/bin"
    ∷ codes "/usr/sbin"
    ∷ codes "/bin"
    ∷ codes "/sbin"
    ∷ codes "/usr/local/bin"
    ∷ codes "/usr/local/sbin"
    ∷ []

-- `strchr (text, '/') != NULL`
unfoldable pub has_separator : Bytes → Bool
has_separator [] = false
has_separator (c ∷ text) = if c == 47 then true else has_separator text

module _ (t : FileTree) where
  unfoldable pub trusted_directory : Bytes → Bool
  trusted_directory path = elim (t.stat path) [
    | none ↦ false
    | some s ↦ is_dir s.mode && s.uid == 0 && mode_is_trusted s.mode
  ]

  -- The loop, from `current` on; `false` also if the fuel runs out.
  unfoldable pub parent_loop : ℕ → Bytes → Bool
  parent_loop zero current = false
  parent_loop (suc fuel) current =
      let parent = t.dirname current in
      let rest = parent_loop fuel parent in
      if not (trusted_directory current)
      then false
      else if equal current separator
      then true
      else if equal parent current
      then false
      else rest

  -- A parent is shorter than what is in it, so that the length of the path is fuel enough.
  unfoldable pub trusted_parent_chain : Bytes → Bool
  unfolding parent_loop
  trusted_parent_chain path =
      if not (t.is_absolute path) then false else parent_loop (suc (length path)) (t.dirname path)

  -- the tests of a resolved path
  unfoldable pub trusted_file : Bytes → Bool
  unfolding trusted_parent_chain
  trusted_file path = elim (t.stat path) [
    | none ↦ false
    | some s ↦
        is_regular s.mode
        && s.uid == 0
        && mode_is_trusted s.mode
        && trusted_parent_chain path
        && t.is_executable path
  ]

  unfoldable pub trusted_system_executable : Bytes → Bytes → Option Bytes
  unfolding trusted_file
  trusted_system_executable directory candidate =
      if not (trusted_directory directory) then none else elim (t.realpath candidate) [
        | none ↦ none
        | some resolved ↦ if trusted_file resolved then some resolved else none
      ]

  unfoldable pub find_in : List Bytes → Bytes → Option Bytes
  unfolding trusted_system_executable
  find_in [] program = none
  find_in (directory ∷ rest) program =
      let later = find_in rest program in
      elim (trusted_system_executable directory (t.build_filename directory program)) [
        | none ↦ later
        | some resolved ↦ some resolved
      ]

  unfoldable pub find_trusted_system_program : Option Bytes → Option Bytes
  unfolding find_in
  find_trusted_system_program program = elim program [
    | none ↦ none
    | some name ↦ if is_empty name || has_separator name then none else find_in directories name
  ]
