-- ===== src/ShellCommand/Lookup.antt =====
-- The program that the lookup returns is the first that can be trusted.
use system_settings.Prelude.{
  ◌/◌, ◌%◌, true, false, some, List, [], ◌∷◌, Bytes, is_empty, ◌≡◌, ◌↔◌, inl, inr, sym, ap, ◌∙◌,
  arith, Option-cases, Bool-cases,
}
use system_settings.ShellCommand.{
  FileTree, FileStatus, is_regular, mode_is_trusted, trusted_directory, trusted_file,
  trusted_system_executable, find_in, find_trusted_system_program, has_separator, directories,
}
use system_settings.ShellCommand.Trust.{
  LawfulPaths, Rooted, Above, Above-trusted, trusted_parent_chain-Rooted,
}

module _ (t : FileTree) (l : LawfulPaths t) where
  -- A regular file of root that only root may write and that may be run, below trusted directories.
  pub record TrustedFile (path : Bytes) : Type 0 where
    pub status : FileStatus
    pub stat-status : t.stat path ≡ some status
    pub regular : is_regular status.mode ≡ true
    pub of_root : status.uid ≡ 0
    pub unwritable : mode_is_trusted status.mode ≡ true
    pub absolute : t.is_absolute path ≡ true
    pub rooted : Rooted t l (t.dirname path)
    pub executable : t.is_executable path ≡ true

  -- The name is found in this directory, and leads to `path`.
  pub record FoundIn (directory program path : Bytes) : Type 0 where
    pub trusted : trusted_directory t directory ≡ true
    pub resolves : t.realpath (t.build_filename directory program) ≡ some path
    pub file : TrustedFile path

  pub data FirstFound (program path : Bytes) : List Bytes → Type 0 where
    here :
        {directory : Bytes} {rest : List Bytes}
        → FoundIn directory program path
        → FirstFound program path (directory ∷ rest)
    there :
        {directory : Bytes} {rest : List Bytes}
        → ((other : Bytes) → ¬ FoundIn directory program other)
        → FirstFound program path rest
        → FirstFound program path (directory ∷ rest)

  trusted_file-TrustedFile : (path : Bytes) → trusted_file t path ≡ true → TrustedFile path
  unfolding trusted_file
  trusted_file-TrustedFile path e = elim (Option-cases (t.stat path)) [
    | inl n ↦ absurd (ground arith)
    | inr (s, y) ↦
        let chain = (trusted_parent_chain-Rooted t l path).0 (ground arith) in
        record {
          status = s;
          stat-status = y;
          regular = ground arith;
          of_root = ground arith;
          unwritable = ground arith;
          absolute = chain.0;
          rooted = chain.1;
          executable = ground arith;
        }
  ]

  TrustedFile-trusted_file : {path : Bytes} → TrustedFile path → trusted_file t path ≡ true
  unfolding trusted_file
  TrustedFile-trusted_file {path} f =
      let chain = (trusted_parent_chain-Rooted t l path).1 (f.absolute, f.rooted) in
      ground (arith, f.stat-status, f.regular, f.of_root, f.unwritable, f.executable, chain)

  executable-FoundIn :
      (directory program path : Bytes)
      → (trusted_system_executable t directory (t.build_filename directory program) ≡ some path)
        ↔ FoundIn directory program path
  unfolding trusted_system_executable
  executable-FoundIn directory program path = (there_is, found)
    where
      there_is :
          trusted_system_executable t directory (t.build_filename directory program) ≡ some path
          → FoundIn directory program path
      there_is e = elim (Option-cases (t.realpath (t.build_filename directory program))) [
        | inl n ↦ absurd (ground arith)
        | inr (resolved, y) ↦ elim (Bool-cases (trusted_file t resolved)) [
          | inr n ↦ absurd (ground arith)
          | inl f ↦
              let same : (resolved ≡ path) = ground arith in
              record {
                trusted = ground arith;
                resolves = y ∙ ap some same;
                file = trusted_file-TrustedFile path (rw (sym same) f);
              }
        ]
      ]

      found :
          FoundIn directory program path
          → trusted_system_executable t directory (t.build_filename directory program) ≡ some path
      found h = ground (arith, h.trusted, h.resolves, TrustedFile-trusted_file h.file)

  find_in-first :
      (list : List Bytes) (program path : Bytes)
      → find_in t list program ≡ some path
      → FirstFound program path list
  unfolding find_in
  find_in-first [] program path e = absurd (ground arith)
  find_in-first (directory ∷ rest) program path e =
      elim (Option-cases
        (trusted_system_executable t directory (t.build_filename directory program))) [
          | inl n ↦
              there
                (λ other h.
                  let y = (executable-FoundIn directory program other).1 h in absurd (ground arith))
                (find_in-first rest program path (ground arith))
          | inr (resolved, y) ↦ here ((executable-FoundIn directory program path).0 (ground arith))
        ]

  first-find_in :
      {program path : Bytes} {list : List Bytes}
      → FirstFound program path list
      → find_in t list program ≡ some path
  unfolding find_in
  first-find_in {program = program} {path = path} {list = []} x = elim x [ ]
  first-find_in {program = program} {path = path} {list = directory ∷ rest} (here h) =
      ground (arith, (executable-FoundIn directory program path).1 h)
  first-find_in {program = program} {path = path} {list = directory ∷ rest} (there n h) =
      elim (Option-cases
        (trusted_system_executable t directory (t.build_filename directory program))) [
          | inl e ↦ ground (arith, first-find_in h)
          | inr (resolved, y) ↦
              absurd (n resolved ((executable-FoundIn directory program resolved).0 y))
        ]

  -- A program is found exactly if its name is not empty and has no slash, and the path is the resolved one
  -- of the first of the directories, itself trusted, in which that name leads to a trusted file.
  pub find_trusted-first :
      (program path : Bytes)
      → (find_trusted_system_program t (some program) ≡ some path) ↔ (
          (is_empty program ≡ false)
          × (has_separator program ≡ false)
          × FirstFound program path directories)
  unfolding find_trusted_system_program
  find_trusted-first program path = (
    (λ e. (ground arith, ground arith, find_in-first directories program path (ground arith))),
    (λ h. ground (arith, h.0, h.1, first-find_in (h.2))),
  )

  FirstFound-file :
      {program path : Bytes} {list : List Bytes} → FirstFound program path list → TrustedFile path
  FirstFound-file (here h) = h.file
  FirstFound-file (there n h) = FirstFound-file h

  -- A directory that is root's and that neither its group nor others may write to.
  pub record RootsOwn (directory : Bytes) : Type 0 where
    pub status : FileStatus
    pub stat-status : t.stat directory ≡ some status
    pub of_directory : status.mode / 4096 % 16 ≡ 4
    pub of_root : status.uid ≡ 0
    pub no_group_write : status.mode / 16 % 2 ≡ 0
    pub no_other_write : status.mode / 2 % 2 ≡ 0

  trusted_directory-RootsOwn :
      (directory : Bytes) → trusted_directory t directory ≡ true → RootsOwn directory
  unfolding trusted_directory mode_is_trusted
  trusted_directory-RootsOwn directory e = elim (Option-cases (t.stat directory)) [
    | inl n ↦ absurd (ground arith)
    | inr (s, y) ↦ record {
      status = s;
      stat-status = y;
      of_directory = ground arith;
      of_root = ground arith;
      no_group_write = ground arith;
      no_other_write = ground arith;
    }
  ]

  -- Every directory above a program that was found is there as a directory of root's, and neither its
  -- group nor others may write to it.
  pub find_trusted-Above :
      (program path directory : Bytes)
      → find_trusted_system_program t (some program) ≡ some path
      → Above t l path directory
      → RootsOwn directory
  find_trusted-Above program path directory e a =
      let f = FirstFound-file (((find_trusted-first program path).0 e).2) in
      trusted_directory-RootsOwn directory (Above-trusted t l f.rooted a)
