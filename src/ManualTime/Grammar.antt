-- ===== src/ManualTime/Grammar.antt =====
-- The texts that a field and a list of fields are: an account of the input that does not mention the
-- scanner.
use system_settings.ManualTime.{is_digit, at_digit, Fields, skip_colon}
use system_settings.Prelude.{ℕ, ◌+◌, ◌-◌, ◌*◌, false, true, none, [], ◌∷◌, ◌++◌, ◌≡◌, ◌≢◌, Bytes}

-- One or two digits, with their value.
pub data IsField : Bytes → ℕ → Type 0 where
  one_digit : {a v : ℕ} → is_digit a ≡ true → v ≡ a - b'0' → IsField (a ∷ []) v
  two_digits :
      {a b v : ℕ}
      → is_digit a ≡ true
      → is_digit b ≡ true
      → v ≡ (a - b'0') * 10 + (b - b'0')
      → IsField (a ∷ b ∷ []) v

-- Spaces and tabs, and then a word that does not begin with one.
pub data BlanksThen : Bytes → Bytes → Type 0 where
  at_end : BlanksThen [] []
  at_word : {c : ℕ} {p : Bytes} → c ≢ 32 → c ≢ 9 → BlanksThen (c ∷ p) (c ∷ p)
  past_space : {p word : Bytes} → BlanksThen p word → BlanksThen (32 ∷ p) word
  past_tab : {p word : Bytes} → BlanksThen p word → BlanksThen (9 ∷ p) word

-- `H:M` or `H:M:S`, and what stands behind it.
pub data IsTime : Bytes → Fields → Type 0 where
  short :
      {hs ms : Bytes} {h m : ℕ} (rest : Bytes)
      → IsField hs h
      → IsField ms m
      → at_digit rest ≡ false
      → skip_colon rest ≡ none
      → IsTime
          (hs ++ (b':' ∷ (ms ++ rest)))
          (record { hour = h; minute = m; second = 0; rest = rest })
  long :
      {hs ms ss : Bytes} {h m s : ℕ} (rest : Bytes)
      → IsField hs h
      → IsField ms m
      → IsField ss s
      → at_digit rest ≡ false
      → IsTime
          (hs ++ (b':' ∷ (ms ++ (b':' ∷ (ss ++ rest)))))
          (record { hour = h; minute = m; second = s; rest = rest })
