-- ===== src/ManualTime/Laws.antt =====
-- What the three readings accept and return, and which of them a clock mode selects.
use system_settings.ManualTime.Grammar.{
  IsField, one_digit, two_digits, IsTime, short, long, BlanksThen, at_end, at_word, past_space,
  past_tab,
}
use system_settings.ManualTime.Scan.{parse_fields-IsTime, IsTime-parse_fields, bind-eq-some}
use system_settings.ManualTime.{
  Fields, parse_fields, parse_24_hour, parse_12_hour, parse_decimal, skip_blanks, us_per_second,
  us_per_day,
}
use system_settings.Prelude.{
  ℕ, ◌+◌, ◌*◌, ◌%◌, ◌≤◌, ◌<◌, Bool, true, not, ◌||◌, ◌&&◌, none, some, [], ◌≡◌, ◌↔◌, ◌⊎◌, refl,
  Bytes, codes, is_empty, if◌then◌else◌, ltb, arith, ◌==◌, ◌∷◌, inl, inr, Bool-cases,
}

-- A 24-hour time and its instant.
abbrev pub Time24 : Bytes → ℕ → Type 0
Time24 text us =
    (f : Fields) × IsTime text f
    × (f.rest ≡ [])
    × (f.hour ≤ 23)
    × (f.minute ≤ 59)
    × (f.second ≤ 59)
    × (us ≡ (f.hour * 3600 + f.minute * 60 + f.second) * 1000000)

-- The checks behind the scanner, on every branch.
checks_24 :
    (f : Fields) (us : ℕ)
    → ((if not (is_empty f.rest) || ltb 23 f.hour || ltb 59 f.minute || ltb 59 f.second
          then none
          else some ((f.hour * 3600 + f.minute * 60 + f.second) * us_per_second))
        ≡ some us)
      ↔ ((f.rest ≡ [])
          × (f.hour ≤ 23)
          × (f.minute ≤ 59)
          × (f.second ≤ 59)
          × (us ≡ (f.hour * 3600 + f.minute * 60 + f.second) * 1000000))
checks_24 f us = ground arith

-- A text is read as a 24-hour time exactly when it is `H:M` or `H:M:S` with nothing behind it and
-- each field in range, and the result is its distance from midnight in microseconds.
pub parse_24_hour-exact : (text : Bytes) (us : ℕ) → (parse_24_hour text ≡ some us) ↔ Time24 text us
unfolding parse_24_hour
parse_24_hour-exact text us = (
  λ e.
      let (f, read, e') = bind-eq-some (parse_fields text) _ e in
      let c = (checks_24 f us).0 e' in (f, IsTime-parse_fields text read, c.0, c.1, c.2, c.3, c.4),
  λ t. rw (parse_fields-IsTime t.1) ((checks_24 t.0 us).1 (t.2, t.3, t.4, t.5, t.6)),
)

-- A time of ten hours of a hundred minutes of a hundred seconds, and its instant.
abbrev pub Time10 : Bytes → ℕ → Type 0
Time10 text us =
    (f : Fields) × IsTime text f
    × (f.rest ≡ [])
    × (f.hour ≤ 9)
    × (us ≡ (f.hour * 10000 + f.minute * 100 + f.second) * 864000)

IsField-lt-100 : {fs : Bytes} {v : ℕ} → IsField fs v → v < 100
IsField-lt-100 (one_digit d e) = ground arith
IsField-lt-100 (two_digits d d' e) = ground arith

-- The values of two-digit fields.
pub IsTime-lt-100 :
    {text : Bytes} {f : Fields}
    → IsTime text f
    → (f.hour < 100) × (f.minute < 100) × (f.second < 100)
IsTime-lt-100 (short rest h m d c) = (IsField-lt-100 h, IsField-lt-100 m, omega arith)
IsTime-lt-100 (long rest h m s d) = (IsField-lt-100 h, IsField-lt-100 m, IsField-lt-100 s)

checks_10 :
    (f : Fields) (us : ℕ)
    → f.minute < 100
    → f.second < 100
    → ((if not (is_empty f.rest) || ltb 9 f.hour
          then none
          else let t = (f.hour * 10000 + f.minute * 100 + f.second) * 864000 in
            if ltb t us_per_day then some t else none)
        ≡ some us)
      ↔ ((f.rest ≡ [])
          × (f.hour ≤ 9)
          × (us ≡ (f.hour * 10000 + f.minute * 100 + f.second) * 864000))
checks_10 f us m s = ground arith

-- A text is read as a decimal time exactly when it is `H:M` or `H:M:S` with nothing behind it and one
-- digit's worth of hours; the comparison with the length of the day never refuses one.
pub parse_decimal-exact : (text : Bytes) (us : ℕ) → (parse_decimal text ≡ some us) ↔ Time10 text us
unfolding parse_decimal
parse_decimal-exact text us = (
  λ e.
      let (f, read, e') = bind-eq-some (parse_fields text) _ e in
      let t = IsTime-parse_fields text read in
      let b = IsTime-lt-100 t in let c = (checks_10 f us b.1 b.2).0 e' in (f, t, c.0, c.1, c.2),
  λ t.
      let b = IsTime-lt-100 t.1 in
      rw (parse_fields-IsTime t.1) ((checks_10 t.0 us b.1 b.2).1 (t.2, t.3, t.4)),
)

-- The hour of the day that a 12-hour time stands for.
abbrev pub hour_of_half : Bool → ℕ → ℕ
hour_of_half after_noon h = if after_noon then h % 12 + 12 else h % 12

skip_blanks-BlanksThen : (p : Bytes) → BlanksThen p (skip_blanks p)
unfolding skip_blanks
skip_blanks-BlanksThen [] = at_end
skip_blanks-BlanksThen (c ∷ p) =
    let more = skip_blanks-BlanksThen p in
    elim (Bool-cases (c == 32)) [
      | inl s ↦
          let is_space : (c ≡ 32) = ground arith in rw (is_space, skip_blanks) (past_space more)
      | inr n ↦ elim (Bool-cases (c == 9)) [
        | inl s ↦ let is_tab : (c ≡ 9) = ground arith in rw (is_tab, skip_blanks) (past_tab more)
        | inr m ↦
            rw (n, m, skip_blanks)
              (at_word (λ e. absurd (ground arith)) (λ e. absurd (ground arith)))
      ]
    ]

BlanksThen-skip_blanks : {p word : Bytes} → BlanksThen p word → skip_blanks p ≡ word
unfolding skip_blanks
BlanksThen-skip_blanks at_end = refl
BlanksThen-skip_blanks (at_word n m) = ground arith
BlanksThen-skip_blanks (past_space h) = BlanksThen-skip_blanks h
BlanksThen-skip_blanks (past_tab h) = BlanksThen-skip_blanks h

-- A 12-hour time with its half of the day, and its instant.
abbrev pub Time12 : (Bytes → Bytes → Bool) → Bytes → ℕ → Type 0
Time12 equal_ci text us =
    (f : Fields) × (after_noon : Bool) × (word : Bytes) × IsTime text f
    × BlanksThen f.rest word
    × (1 ≤ f.hour)
    × (f.hour ≤ 12)
    × (f.minute ≤ 59)
    × (f.second ≤ 59)
    × (equal_ci word (codes "PM") ≡ after_noon)
    × ((after_noon ≡ true) ⊎ (equal_ci word (codes "AM") ≡ true))
    × (us ≡ (hour_of_half after_noon f.hour * 3600 + f.minute * 60 + f.second) * 1000000)

module _ (equal_ci : Bytes → Bytes → Bool) where
  checks_12 :
      (f : Fields) (us : ℕ) (am pm : Bool)
      → ((if ltb f.hour 1 || ltb 12 f.hour || ltb 59 f.minute || ltb 59 f.second
            then none
            else if not am && not pm
            then none
            else some (
                ((if pm then f.hour % 12 + 12 else f.hour % 12) * 3600 + f.minute * 60 + f.second)
                * us_per_second))
          ≡ some us)
        ↔ ((1 ≤ f.hour)
            × (f.hour ≤ 12)
            × (f.minute ≤ 59)
            × (f.second ≤ 59)
            × ((pm ≡ true) ⊎ (am ≡ true))
            × (us ≡ (hour_of_half pm f.hour * 3600 + f.minute * 60 + f.second) * 1000000))
  checks_12 f us am pm = ground arith

  -- A text is read as a 12-hour time exactly when it is `H:M` or `H:M:S` with the hour from 1 to 12,
  -- then any number of spaces or tabs, then a word that Common's comparison finds equal to AM or PM; the hour 12 is
  -- the first of its half of the day.
  pub parse_12_hour-exact :
      (text : Bytes) (us : ℕ) → (parse_12_hour equal_ci text ≡ some us) ↔ Time12 equal_ci text us
  unfolding parse_12_hour
  parse_12_hour-exact text us = (
    λ e.
        let (f, read, e') = bind-eq-some (parse_fields text) _ e in
        let c = (checks_12 f us _ _).0 e' in
        (
          f,
          _,
          skip_blanks f.rest,
          IsTime-parse_fields text read,
          skip_blanks-BlanksThen f.rest,
          c.0,
          c.1,
          c.2,
          c.3,
          refl,
          c.4,
          c.5,
        ),
    λ t. rw (parse_fields-IsTime t.3) (
        rw (BlanksThen-skip_blanks t.4)
          ((checks_12 t.0 us _ _).1 (rw t.9 (t.5, t.6, t.7, t.8, t.10, t.11)))),
  )
