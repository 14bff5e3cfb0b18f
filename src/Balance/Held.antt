-- ===== src/Balance/Held.antt =====
-- The balance as a number, and how a change of it looks.
use k_chain_vm_common_go.Common.{ℕ, ◌≡◌, false, Bytes, arith}
use k_chain_vm_common_go.Common.Int.{ℤ, pos, ◌+ℤ◌}
use k_chain_vm_common_go.Errors.{Result, ok, err}
use k_chain_vm_common_go.Vm.{DigitalToken}
use k_chain_vm_common_go.Env.{Env, World}
use k_chain_vm_common_go.Balance.{is_negative}
use k_chain_vm_common_go.Balance.Storage.{token_at, stored}
use k_chain_vm_common_go.Balance.Update.{Credited}

module _ {A D : Type 0} (e : Env A D) where
  -- The value of a token that is read; one that cannot be read counts for nothing.
  abbrev pub value_of : Result DigitalToken → ℤ
  value_of (ok t) = t.value
  value_of (err x) = pos 0

  abbrev pub held : World A D → ℕ → Bytes → ℤ
  held w p key = value_of (token_at e w p key)

  value-stored : (t : DigitalToken) → (stored e t).value ≡ t.value
  value-stored t = ground arith

  pub held-Credited :
      (p : ℕ) (key : Bytes) (value : ℤ) (w w' : World A D)
      → Credited e p key value w w'
      → (held w' p key ≡ held w p key +ℤ value) × (is_negative (held w' p key) ≡ false)
  held-Credited p key value w w' c = ground (
    arith,
    c.found,
    c.after,
    c.covered,
    value-stored (record c.before { value = c.before.value +ℤ value }),
  )
