-- ===== src/ManualTime/Scan.antt =====
-- The field scanner reads exactly the fields of the grammar.
use mathlib.Core.Option.{some-injective}
use mathlib.Core.Path.{subst}
use system_settings.ManualTime.Grammar.{IsField, one_digit, two_digits, IsTime, short, long}
use system_settings.ManualTime.{
  ◌>>=◌, is_digit, at_digit, parse_field, Fields, skip_colon, parse_second, parse_fields,
}
use system_settings.Prelude.{
  ℕ, false, Option, none, some, [], ◌∷◌, ◌++◌, ◌≡◌, refl, inl, inr, Bytes, arith, Option-cases,
  Bool-cases,
}

pub parse_field-IsField :
    {fs : Bytes} {v : ℕ} (rest : Bytes)
    → IsField fs v
    → at_digit rest ≡ false
    → parse_field (fs ++ rest) ≡ some (v, rest)
unfolding parse_field
parse_field-IsField [] (one_digit p e) h = ground arith
parse_field-IsField (c ∷ rest) (one_digit p e) h = ground arith
parse_field-IsField [] (two_digits p q e) h = ground arith
parse_field-IsField (c ∷ rest) (two_digits p q e) h = ground arith

-- What a field leaves of the text does not begin with a digit.
pub record Read (text : Bytes) (v : ℕ) (rest : Bytes) : Type 0 where
  pub field : Bytes
  pub splits : text ≡ field ++ rest
  pub is_field : IsField field v
  pub stops : at_digit rest ≡ false

pub parse_field-Read :
    (text : Bytes) {v : ℕ} {rest : Bytes} → parse_field text ≡ some (v, rest) → Read text v rest
unfolding parse_field
parse_field-Read [] e = cc
parse_field-Read (a ∷ []) e = elim (Bool-cases (is_digit a)) [
  | inl d ↦ record {
    field = a ∷ [];
    splits = ground arith;
    is_field = one_digit d (ground arith);
    stops = ground arith;
  }
  | inr n ↦ absurd (ground arith)
]
parse_field-Read (a ∷ b ∷ text) e = elim (Bool-cases (is_digit a)) [
  | inl d ↦ elim (Bool-cases (is_digit b)) [
    | inl d' ↦ record {
      field = a ∷ b ∷ [];
      splits = ground arith;
      is_field = two_digits d d' (ground arith);
      stops = ground arith;
    }
    | inr n ↦ record {
      field = a ∷ [];
      splits = ground arith;
      is_field = one_digit d (ground arith);
      stops = ground arith;
    }
  ]
  | inr n ↦ absurd (ground arith)
]

pub parse_fields-IsTime : {text : Bytes} {f : Fields} → IsTime text f → parse_fields text ≡ some f
unfolding parse_fields
parse_fields-IsTime (short rest h m stops none_left) =
    rw (parse_field-IsField _ h refl)
      (rw (parse_field-IsField _ m stops) (rw (none_left, parse_second)))
parse_fields-IsTime (long rest h m s stops) =
    rw (parse_field-IsField _ h refl)
      (rw (parse_field-IsField _ m refl) (rw (parse_field-IsField _ s stops, parse_second)))

-- The cursor behind a colon.
skip_colon-eq : (p : Bytes) {q : Bytes} → skip_colon p ≡ some q → p ≡ b':' ∷ q
skip_colon-eq [] e = cc
skip_colon-eq (c ∷ p) e = ground arith

pub bind-eq-some {ℓ κ} :
    {A : Type ℓ} {B : Type κ} (m : Option A) (k : A → Option B) {b : B}
    → (m >>= k) ≡ some b
    → (a : A) × (m ≡ some a) × (k a ≡ some b)
bind-eq-some none k e = cc
bind-eq-some (some a) k e = (a, refl, e)

-- The part behind the minutes.
IsTime-parse_second :
    {hs ms : Bytes} {h m : ℕ} (rest : Bytes) {f : Fields}
    → IsField hs h
    → IsField ms m
    → at_digit rest ≡ false
    → parse_second h m rest ≡ some f
    → IsTime (hs ++ (b':' ∷ (ms ++ rest))) f
unfolding parse_second
IsTime-parse_second {hs} {ms} {h} {m} rest fh fm stops e = elim (Option-cases (skip_colon rest)) [
  | inl n ↦
      subst (IsTime _) (some-injective _ _ (rw (n, parse_second) at e)) (short rest fh fm stops n)
  | inr (p, colon) ↦
      let (s, read_s, e') = bind-eq-some (parse_field p) _ (rw (colon, parse_second) at e) in
      let r = parse_field-Read p {v = s.0} {rest = s.1} read_s in
      rw (skip_colon-eq rest colon)
        (rw r.splits (subst (IsTime _) (some-injective _ _ e') (long s.1 fh fm r.is_field r.stops)))
]

-- An accepted text is a time, and the result is its fields.
pub IsTime-parse_fields : (text : Bytes) {f : Fields} → parse_fields text ≡ some f → IsTime text f
unfolding parse_fields
IsTime-parse_fields text e =
    let (h, read_h, e1) = bind-eq-some (parse_field text) _ e in
    let (p, colon, e2) = bind-eq-some (skip_colon h.1) _ e1 in
    let (m, read_m, e3) = bind-eq-some (parse_field p) _ e2 in
    let rh = parse_field-Read text {v = h.0} {rest = h.1} read_h in
    let rm = parse_field-Read p {v = m.0} {rest = m.1} read_m in
    rw rh.splits (
      rw (skip_colon-eq h.1 colon)
        (rw rm.splits (IsTime-parse_second m.1 rh.is_field rm.is_field rm.stops e3)))
