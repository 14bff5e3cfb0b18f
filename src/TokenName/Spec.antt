-- ===== src/TokenName/Spec.antt =====
-- The form of a valid token identifier.
use k_chain_vm_common_go.Common.{
  ℕ, suc, ◌+◌, ◌≤◌, ◌≡◌, ◌⊎◌, true, ◌∷◌, ◌++◌, Bytes, All, length, take, drop, get_or,
}
use k_chain_vm_common_go.TokenName.{ticker_chars_valid, all_random_chars_valid}

abbrev pub IsDigit : ℕ → Type 0
IsDigit c = (b'0' ≤ c) × (c ≤ b'9')

-- A capital letter or a digit.
abbrev pub IsTickerChar : ℕ → Type 0
IsTickerChar c = ((b'A' ≤ c) × (c ≤ b'Z')) ⊎ IsDigit c

-- A hexadecimal digit in lower case.
abbrev pub IsRandomChar : ℕ → Type 0
IsRandomChar c = ((b'a' ≤ c) × (c ≤ b'f')) ⊎ IsDigit c

-- A ticker of three to ten characters, a dash, and six random characters.
pub record Named (token : Bytes) : Type 0 where
  pub ticker : Bytes
  pub random : Bytes
  pub parts : token ≡ ticker ++ (b'-' ∷ random)
  pub ticker_long : 3 ≤ length ticker
  pub ticker_short : length ticker ≤ 10
  pub random_length : length random ≡ 6
  pub ticker_chars : All IsTickerChar ticker
  pub random_chars : All IsRandomChar random

-- What the tests establish, the position of the dash being `n`.
abbrev Tested : Bytes → ℕ → Type 0
Tested token n =
    (length token ≡ n + 7)
    × (3 ≤ n)
    × (n ≤ 10)
    × (get_or token n 0 ≡ b'-')
    × (ticker_chars_valid (take n token) ≡ true)
    × (all_random_chars_valid (drop (suc n) token) ≡ true)
