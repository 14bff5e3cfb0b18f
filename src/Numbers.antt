-- ===== src/Numbers.antt =====
-- math/big and uint64 as the program uses them: `SetBytes`, `Bytes`, `Uint64`, wrapping
-- subtraction, and gasCost.go's SafeSubUint64.
pub mod RoundTrip
use mathlib.Core.Logic.{dite}
use mathlib.Core.WellFounded.{Acc}
use k_chain_vm_common_go.Common.{
  ℕ, ◌+◌, ◌-◌, ◌*◌, ◌/◌, ◌%◌, ◌^◌, ◌<◌, ◌≡◌, Option, none, some, [], ◌∷◌, arith, ltb, dec_lt,
  if◌then◌else◌, Bytes,
}
use k_chain_vm_common_go.Common.Int.{ℤ, pos, negsuc}
use k_chain_vm_common_go.Common.Order.{lt_wf}

-- 2 ^ 64, the modulus of uint64.
abbrev pub u64_mod : ℕ
u64_mod = 2 ^ 64

-- `a - b` on uint64, which wraps.
unfoldable pub sub_u64 : ℕ → ℕ → ℕ
sub_u64 a b = (a + u64_mod - b) % u64_mod

-- gasCost.go, SafeSubUint64; `none` is ErrSubtractionOverflow.
unfoldable pub safe_sub_u64 : ℕ → ℕ → Option ℕ
safe_sub_u64 a b = if ltb a b then none else some (sub_u64 a b)

set_bytes_from : ℕ → Bytes → ℕ
set_bytes_from acc [] = acc
set_bytes_from acc (b ∷ bs) = set_bytes_from (acc * 256 + b) bs

-- big.NewInt(0).SetBytes: big-endian and unsigned.
unfoldable pub set_bytes : Bytes → ℕ
unfolding set_bytes_from
set_bytes = set_bytes_from 0

emit_bytes : (n : ℕ) → Acc ◌<◌ n → Bytes → Bytes
emit_bytes n (Acc.intro _ smaller) out =
    dite (dec_lt 0 n)
      (λ h. emit_bytes (n / 256) (smaller (n / 256) (omega arith)) ((n % 256) ∷ out)) (λ _. out)

-- (*big.Int).Bytes of a number that is not negative: big-endian, with no leading zero.
unfoldable pub nat_bytes : ℕ → Bytes
unfolding emit_bytes lt_wf dec_lt
nat_bytes n = emit_bytes n (lt_wf.apply n) []

-- (*big.Int).Bytes forgets the sign.
unfoldable pub int_bytes : ℤ → Bytes
int_bytes (pos n) = nat_bytes n
int_bytes (negsuc n) = nat_bytes (n + 1)

-- (*big.Int).Uint64 keeps the low 64 bits.
unfoldable pub to_u64 : ℕ → ℕ
to_u64 n = n % u64_mod
