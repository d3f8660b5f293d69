-- ===== src/ShellCommand/Trust.antt =====
-- What a trusted path is, whatever the loop that finds out, and that the loop finds it out.
use system_settings.Prelude.{
  ℕ, zero, suc, ◌<◌, true, false, Bytes, equal, equal_iff, length, ◌≡◌, ◌↔◌, ◌⊎◌, inl, inr, refl,
  sym, ap, arith, Bool-cases,
}
use system_settings.ShellCommand.{
  FileTree, trusted_directory, parent_loop, trusted_parent_chain, separator,
}

-- What GLib documents of the directory of an absolute path: it is absolute, and it is shorter, but for
-- the root, which is its own.
pub record LawfulPaths (t : FileTree) : Type 0 where
  pub dirname-absolute : (p : Bytes) → t.is_absolute p ≡ true → t.is_absolute (t.dirname p) ≡ true
  pub dirname-shorter :
      (p : Bytes) → t.is_absolute p ≡ true → (p ≡ separator) ⊎ (length (t.dirname p) < length p)
  pub dirname_root : t.dirname separator ≡ separator

module _ (t : FileTree) (l : LawfulPaths t) where
  -- Every directory from this one up to the root is trusted.
  pub data Rooted : Bytes → Type 0 where
    at_root : trusted_directory t separator ≡ true → Rooted separator
    below : (p : Bytes) → trusted_directory t p ≡ true → Rooted (t.dirname p) → Rooted p

  -- `q` is a directory above `p`.
  pub data Above (p : Bytes) : Bytes → Type 0 where
    parent : Above p (t.dirname p)
    higher : {q : Bytes} → Above p q → Above p (t.dirname q)

  Rooted-trusted : {p : Bytes} → Rooted p → trusted_directory t p ≡ true
  Rooted-trusted (at_root y) = y
  Rooted-trusted (below p y r) = y

  Rooted-dirname : {p : Bytes} → Rooted p → Rooted (t.dirname p)
  Rooted-dirname (at_root y) = rw l.dirname_root (at_root y)
  Rooted-dirname (below p y r) = r

  pub Above-trusted :
      {p q : Bytes} → Rooted (t.dirname p) → Above p q → trusted_directory t q ≡ true
  Above-trusted r a = Rooted-trusted (go r a)
    where
      go : {p q : Bytes} → Rooted (t.dirname p) → Above p q → Rooted q
      go r parent = r
      go r (higher a) = Rooted-dirname (go r a)

  shorter-differs : (p q : Bytes) → length p < length q → equal p q ≡ false
  shorter-differs p q less = elim (Bool-cases (equal p q)) [
    | inl y ↦ absurd (omega (arith, ap length ((equal_iff p q).0 y)))
    | inr n ↦ n
  ]

  parent_loop-Rooted : (fuel : ℕ) (p : Bytes) → parent_loop t fuel p ≡ true → Rooted p
  unfolding parent_loop
  parent_loop-Rooted zero p e = absurd (ground arith)
  parent_loop-Rooted (suc fuel) p e = elim (Bool-cases (equal p separator)) [
    | inl y ↦
        rw ((equal_iff p separator).0 y)
          (at_root (rw (sym ((equal_iff p separator).0 y)) ground arith))
    | inr n ↦ below p (ground arith) (parent_loop-Rooted fuel (t.dirname p) (ground arith))
  ]

  Rooted-parent_loop :
      (fuel : ℕ) (p : Bytes)
      → t.is_absolute p ≡ true
      → length p < fuel
      → Rooted p
      → parent_loop t fuel p ≡ true
  unfolding parent_loop
  Rooted-parent_loop zero p a enough r = absurd (omega arith)
  Rooted-parent_loop (suc fuel) p a enough r = elim (Bool-cases (equal p separator)) [
    | inl y ↦ ground (arith, Rooted-trusted r)
    | inr n ↦
        let shorter : (length (t.dirname p) < length p) = elim (l.dirname-shorter p a) [
          | inl root ↦ absurd (ground (arith, (equal_iff p separator).1 root))
          | inr less ↦ less
        ] in
        ground (
          arith,
          Rooted-trusted r,
          shorter-differs (t.dirname p) p shorter,
          Rooted-parent_loop fuel (t.dirname p) (l.dirname-absolute p a)
              (omega (arith, shorter, enough)) (Rooted-dirname r),
        )
  ]

  dirname-bounded : (p : Bytes) → t.is_absolute p ≡ true → length (t.dirname p) < suc (length p)
  dirname-bounded p a = elim (l.dirname-shorter p a) [
    | inl root ↦
        let e : (length (t.dirname p) ≡ length p) = rw (root, l.dirname_root) refl in
        omega (arith, e)
    | inr less ↦ omega (arith, less)
  ]

  -- The test of the parents is exact.
  pub trusted_parent_chain-Rooted :
      (p : Bytes)
      → (trusted_parent_chain t p ≡ true) ↔ ((t.is_absolute p ≡ true) × Rooted (t.dirname p))
  unfolding trusted_parent_chain
  trusted_parent_chain-Rooted p = (
    (λ e. (ground arith, parent_loop-Rooted (suc (length p)) (t.dirname p) (ground arith))),
    (λ h. ground (
      arith,
      h.0,
      Rooted-parent_loop (suc (length p)) (t.dirname p) (l.dirname-absolute p (h.0))
          (dirname-bounded p (h.0)) (h.1),
    )),
  )
