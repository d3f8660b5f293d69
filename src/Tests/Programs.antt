-- ===== src/Tests/Programs.antt =====
-- The lookup of a program in a tree whose files and directories are root's.
use system_settings.Prelude.{
  suc, ◌≤◌, Bool, true, false, some, [], ◌∷◌, ◌++◌, Bytes, codes, equal, length, ◌≡◌, ◌↔◌, ◌⊎◌, inl,
  inr, refl, ap, is_empty, if◌then◌else◌, ◌==◌, arith,
}
use system_settings.ShellCommand.{
  FileTree, find_trusted_system_program, find_in, trusted_system_executable, trusted_directory,
  trusted_file, trusted_parent_chain, parent_loop, mode_is_trusted, has_separator, directories,
  separator,
}
use system_settings.ShellCommand.Lookup.{
  RootsOwn, FirstFound, find_trusted-first, find_trusted-Above,
}
use system_settings.ShellCommand.Trust.{LawfulPaths, parent}

-- A path is the list of its names from the last one on, each a single byte, and the root is "/".
abbrev up : Bytes → Bytes
up [] = separator
up (x ∷ []) = separator
up (x ∷ y ∷ rest) = y ∷ rest

abbrev rooted : Bytes → Bool
rooted [] = false
rooted (x ∷ []) = x == 47
rooted (x ∷ y ∷ rest) = rooted (y ∷ rest)

abbrev tree : FileTree
tree = record {
  stat = λ p. some (record { mode = if equal p (codes "g/") then 33261 else 16877; uid = 0 });
  realpath = λ p. some (codes "g/");
  is_executable = λ p. true;
  is_absolute = rooted;
  dirname = up;
  build_filename = λ directory program. program ++ directory;
}

up-shorter : (p : Bytes) → rooted p ≡ true → (p ≡ separator) ⊎ (suc (length (up p)) ≤ length p)
up-shorter [] a = absurd (ground arith)
up-shorter (x ∷ []) a = inl (ap (λ y. y ∷ []) (ground arith))
up-shorter (x ∷ y ∷ rest) a = inr (omega arith)

up-rooted : (p : Bytes) → rooted p ≡ true → rooted (up p) ≡ true
up-rooted [] a = refl
up-rooted (x ∷ []) a = refl
up-rooted (x ∷ y ∷ rest) a = a

tree-LawfulPaths : LawfulPaths tree
tree-LawfulPaths = record {
  dirname-absolute = up-rooted;
  dirname-shorter = up-shorter;
  dirname_root = refl;
}

abbrev program : Bytes
program = codes "date"

finds : find_trusted_system_program tree (some program) ≡ some (codes "g/")
unfolding find_trusted_system_program find_in trusted_system_executable trusted_directory
    trusted_file trusted_parent_chain parent_loop mode_is_trusted has_separator equal
finds = refl

find_trusted-first_example :
    (find_trusted_system_program tree (some program) ≡ some (codes "g/")) ↔ (
      (is_empty program ≡ false)
      × (has_separator program ≡ false)
      × FirstFound tree tree-LawfulPaths program (codes "g/") directories)
find_trusted-first_example = find_trusted-first tree tree-LawfulPaths program (codes "g/")

find_trusted-Above_example : RootsOwn tree tree-LawfulPaths separator
find_trusted-Above_example =
    find_trusted-Above tree tree-LawfulPaths program (codes "g/") separator finds parent
