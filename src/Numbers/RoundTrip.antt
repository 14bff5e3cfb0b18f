-- ===== src/Numbers/RoundTrip.antt =====
-- The round trip of (*big.Int).Bytes and SetBytes, and the laws of the uint64 helpers.
use mathlib.Core.WellFounded.{Acc}
use mathlib.Core.Logic.{dif_pos, dif_neg}
use native.Mathlib.Bridge.{le_prop}
use k_chain_vm_common_go.Common.{
  ℕ, ◌-◌, ◌/◌, ◌%◌, ◌≤◌, ◌<◌, ◌≡◌, refl, ◌∙◌, ap, [], ◌∷◌, arith, dec_lt, Bytes, AreBytes,
}
use k_chain_vm_common_go.Common.Order.{lt_wf}
use k_chain_vm_common_go.Numbers.{
  u64_mod, sub_u64, set_bytes, set_bytes_from, nat_bytes, emit_bytes,
}

-- Writing `n` before `out` and reading from zero is reading `out` from `n`.
set_bytes-emit :
    (n : ℕ) (w : Acc ◌<◌ n) (out : Bytes)
    → set_bytes_from 0 (emit_bytes n w out) ≡ set_bytes_from n out
unfolding emit_bytes set_bytes_from
set_bytes-emit n (Acc.intro _ smaller) out = elim (dec_lt 0 n) [
  | yes p ↦ rw (dif_pos (dec_lt 0 n) le_prop p) (
      set_bytes-emit (n / 256) (smaller (n / 256) (omega arith)) ((n % 256) ∷ out)
      ∙ ap (λ k. set_bytes_from k out) (omega arith))
  | no p ↦ rw (dif_neg (dec_lt 0 n) p) (ap (λ k. set_bytes_from k out) (omega arith))
]

-- No bytes are the number 0.
pub set_bytes_nil : set_bytes [] ≡ 0
unfolding set_bytes set_bytes_from
set_bytes_nil = refl

pub set_bytes-nat_bytes : (n : ℕ) → set_bytes (nat_bytes n) ≡ n
unfolding set_bytes set_bytes_from nat_bytes
set_bytes-nat_bytes n = set_bytes-emit n (lt_wf.apply n) []

emit-AreBytes : (n : ℕ) (w : Acc ◌<◌ n) (out : Bytes) → AreBytes out → AreBytes (emit_bytes n w out)
unfolding emit_bytes
emit-AreBytes n (Acc.intro _ smaller) out h = elim (dec_lt 0 n) [
  | yes p ↦
      rw (dif_pos (dec_lt 0 n) le_prop p) (
        emit-AreBytes (n / 256) (smaller (n / 256) (omega arith)) ((n % 256) ∷ out)
          (omega arith, h))
  | no p ↦ rw (dif_neg (dec_lt 0 n) p) h
]

pub nat_bytes-AreBytes : (n : ℕ) → AreBytes (nat_bytes n)
unfolding nat_bytes
nat_bytes-AreBytes n = emit-AreBytes n (lt_wf.apply n) [] tt

pub sub_u64-eq : (a b : ℕ) → b ≤ a → a < u64_mod → sub_u64 a b ≡ a - b
unfolding sub_u64
sub_u64-eq a b h k = omega arith
