-- ===== src/Prelude/Texts.antt =====
-- C strings as lists of bytes without the terminator, and the list functions that measure them.
use Prim.Native.Char.{code}
use Prim.Native.String.{String}
use Prim.Native.Nat.{ℕ, zero, suc}
use mathlib.Core.Bool.{Bool, true, false}
use mathlib.Core.Path.{◌≡◌, refl}
use mathlib.Core.Logic.{◌↔◌}
use mathlib.Core.List.{List, [], ◌∷◌}
use native.Mathlib.Omega.{arith}
use system_settings.Prelude.Tests.{◌==◌, if◌then◌else◌}

abbrev pub Bytes : Type 0
Bytes = List ℕ

-- The bytes of a literal; every literal of the development is ASCII.
abbrev pub codes : String → Bytes
codes String.[] = []
codes (String.◌∷◌ c s) = code c ∷ codes s

-- `text[0] == '\0'`
abbrev pub is_empty : Bytes → Bool
is_empty [] = true
is_empty (x ∷ xs) = false

-- `strcmp (left, right) == 0`, `g_str_equal`, `infiltratr_string_equal`
unfoldable pub equal : Bytes → Bytes → Bool
equal [] right = is_empty right
equal (c ∷ left) [] = false
equal (c ∷ left) (d ∷ right) = if c == d then equal left right else false

pub equal_refl : (text : Bytes) → equal text text ≡ true
unfolding equal
equal_refl [] = refl
equal_refl (c ∷ text) = ground (arith, equal_refl text)

eq_of_equal : (left right : Bytes) → equal left right ≡ true → left ≡ right
unfolding equal
eq_of_equal [] [] same = refl
eq_of_equal [] (d ∷ right) same = cc
eq_of_equal (c ∷ left) [] same = cc
eq_of_equal (c ∷ left) (d ∷ right) same = ground (arith, eq_of_equal left right)

pub equal_iff : (left right : Bytes) → (equal left right ≡ true) ↔ (left ≡ right)
equal_iff left right = (eq_of_equal left right, λ e. rw e (equal_refl right))

abbrev pub length {ℓ} : {A : Type ℓ} → List A → ℕ
length [] = 0
length (x ∷ xs) = suc (length xs)

abbrev pub take {ℓ} : {A : Type ℓ} → ℕ → List A → List A
take zero xs = []
take (suc n) [] = []
take (suc n) (x ∷ xs) = x ∷ take n xs
