-- ===== src/Local/Effect.antt =====
-- What minting and burning do to the balances.
use k_chain_vm_common_go.Common.{
  ℕ, ◌+◌, ◌≤◌, ◌<◌, ◌≡◌, ◌≢◌, ◌∙◌, ap, ◌⊎◌, inl, inr, true, List, [], ◌∷◌, Option, some, Bytes,
  arith, length, sym, Bool-cases, ◌&&◌, false,
}
use k_chain_vm_common_go.Common.Int.{ℤ, pos, ◌+ℤ◌, ◌-ℤ◌, int_laws}
use k_chain_vm_common_go.Numbers.{u64_mod, set_bytes}
use k_chain_vm_common_go.Numbers.RoundTrip.{sub_u64-eq}
use k_chain_vm_common_go.Errors.{Result, Error, ok, err}
use k_chain_vm_common_go.Vm.{ContractCallInput, VmOutput, DigitalToken}
use k_chain_vm_common_go.Env.{Env, World, dcdt_token_key}
use k_chain_vm_common_go.Env.Laws.{IsStore, IsMarshaller}
use k_chain_vm_common_go.Interfaces.{SettingsHandler}
use k_chain_vm_common_go.Balance.{is_zero, is_negative, are_properties_empty}
use k_chain_vm_common_go.Balance.Storage.{token_at, stored}
use k_chain_vm_common_go.Balance.Update.{
  Credited, Unchanged, add_to_dcdt_balance-Credited, add_to_dcdt_balance-failed,
}
use k_chain_vm_common_go.Balance.Held.{held, held-Credited}
use k_chain_vm_common_go.Local.{
  LocalFunction, process_local_mint, is_allowed_to_burn, process_local_burn, process_burn,
}
use k_chain_vm_common_go.Local.Steps.{
  FailedBalance, local_mint_steps, local_burn_steps, local_mint_failed_steps,
  local_burn_failed_steps, burn_steps,
}

undo : (a b : ℤ) → a +ℤ b +ℤ (pos 0 -ℤ b) ≡ a
undo a b = omega int_laws

uncovered : (n : ℕ) → 0 < n → is_negative (pos 0 +ℤ (pos 0 -ℤ pos n)) ≡ false → ⊥
unfolding ◌+ℤ◌ ◌-ℤ◌
uncovered n positive h = ground arith

module _ {A D : Type 0} (e : Env A D) (store : IsStore e) (marshaller : IsMarshaller e) where
  module _ (f : LocalFunction (World A D)) where
    local_mint-Credited :
        (p : ℕ) (i : ContractCallInput) (token_id vb : Bytes) (rest : List Bytes) (w : World A D)
        (out : VmOutput)
        → i.arguments ≡ token_id ∷ vb ∷ rest
        → (process_local_mint e f (some p) (some i) w).0 ≡ ok out
        → Credited e p
            (dcdt_token_key e.core token_id)
            (pos (set_bytes vb))
            w
            (process_local_mint e f (some p) (some i) w).1
    local_mint-Credited p i token_id vb rest w out args h =
        let (_, _, _, _, _, added, last, _) =
          local_mint_steps e f p i token_id vb rest w out args h in
        rw last (
          add_to_dcdt_balance-Credited e store marshaller f.settings p
            (dcdt_token_key e.core token_id) (pos (set_bytes vb)) i.return_call_after_error w added)

    local_burn-Credited :
        (p : ℕ) (i : ContractCallInput) (token_id vb : Bytes) (rest : List Bytes) (w : World A D)
        (out : VmOutput)
        → i.arguments ≡ token_id ∷ vb ∷ rest
        → (process_local_burn e f (some p) (some i) w).0 ≡ ok out
        → Credited e p
            (dcdt_token_key e.core token_id)
            (pos 0 -ℤ pos (set_bytes vb))
            w
            (process_local_burn e f (some p) (some i) w).1
    local_burn-Credited p i token_id vb rest w out args h =
        let (_, _, _, _, added, last, _) = local_burn_steps e f p i token_id vb rest w out args h in
        rw last (
          add_to_dcdt_balance-Credited e store marshaller f.settings p
            (dcdt_token_key e.core token_id) (pos 0 -ℤ pos (set_bytes vb)) i.return_call_after_error
            w added)

    -- A local mint that succeeds was called by an account on itself that has the mint role for the
    -- token, adds exactly the positive value of its second argument to that account's balance of
    -- the token, changes no other balance, and costs the gas of the function.
    pub local_mint_effect :
        (p : ℕ) (i : ContractCallInput) (token_id vb : Bytes) (rest : List Bytes) (w : World A D)
        (out : VmOutput)
        → i.arguments ≡ token_id ∷ vb ∷ rest
        → i.gas_provided < u64_mod
        → (process_local_mint e f (some p) (some i) w).0 ≡ ok out
        → (i.caller_addr ≡ i.recipient_addr)
          × (f.roles.check_allowed_to_execute w (some p) token_id e.dcdt_role_local_mint ≡ ok tt)
          × (0 < set_bytes vb)
          × (length vb ≤ e.max_len_for_dcdt_issue_mint)
          × Credited e p
              (dcdt_token_key e.core token_id)
              (pos (set_bytes vb))
              w
              (process_local_mint e f (some p) (some i) w).1
          × (out.gas_remaining + f.func_gas_cost ≡ i.gas_provided)
    local_mint_effect p i token_id vb rest w out args b h =
        let (own, positive, gas, short, role, _, _, left) =
          local_mint_steps e f p i token_id vb rest w out args h in
        (
          own,
          role,
          positive,
          short,
          local_mint-Credited p i token_id vb rest w out args h,
          omega (arith, left, gas, sub_u64-eq i.gas_provided f.func_gas_cost gas b),
        )

    may_burn :
        (p : ℕ) (token_id : Bytes) (w : World A D)
        → is_allowed_to_burn e f p token_id w ≡ ok tt
        → (f.settings.is_burn_for_all w (dcdt_token_key e.core token_id) ≡ true)
          ⊎ (f.roles.check_allowed_to_execute w (some p) token_id e.dcdt_role_local_burn ≡ ok tt)
    unfolding is_allowed_to_burn
    may_burn p token_id w h = ground arith

    -- A local burn that succeeds was called by an account on itself, for a token that is set to be
    -- burned by all or with an account that has the burn role for it; it takes exactly the positive
    -- value of its second argument from that account's balance, which had as much, changes no other
    -- balance, and costs the gas of the function.
    pub local_burn_effect :
        (p : ℕ) (i : ContractCallInput) (token_id vb : Bytes) (rest : List Bytes) (w : World A D)
        (out : VmOutput)
        → i.arguments ≡ token_id ∷ vb ∷ rest
        → i.gas_provided < u64_mod
        → (process_local_burn e f (some p) (some i) w).0 ≡ ok out
        → (i.caller_addr ≡ i.recipient_addr)
          × ((f.settings.is_burn_for_all w (dcdt_token_key e.core token_id) ≡ true)
              ⊎ (f.roles.check_allowed_to_execute w (some p) token_id e.dcdt_role_local_burn
                  ≡ ok tt))
          × (0 < set_bytes vb)
          × Credited e p
              (dcdt_token_key e.core token_id)
              (pos 0 -ℤ pos (set_bytes vb))
              w
              (process_local_burn e f (some p) (some i) w).1
          × (out.gas_remaining + f.func_gas_cost ≡ i.gas_provided)
    local_burn_effect p i token_id vb rest w out args b h =
        let (own, positive, gas, role, _, _, left) =
          local_burn_steps e f p i token_id vb rest w out args h in
        (
          own,
          may_burn p token_id w role,
          positive,
          local_burn-Credited p i token_id vb rest w out args h,
          omega (arith, left, gas, sub_u64-eq i.gas_provided f.func_gas_cost gas b),
        )

    ok-inj : {t t' : DigitalToken} → ◌≡◌ {A = Result DigitalToken} (ok t) (ok t') → t ≡ t'
    ok-inj h = ground arith

    -- A token to which a positive value was added and from which it was taken again.
    restored :
        (t t' : DigitalToken) (n : ℕ)
        → t' ≡ stored e (record t { value = t.value +ℤ pos n })
        → is_negative (t'.value +ℤ (pos 0 -ℤ pos n)) ≡ false
        → 0 < n
        → record t' { value = t'.value +ℤ (pos 0 -ℤ pos n) } ≡ t
    restored t t' n before covered positive =
        elim (Bool-cases (is_zero (t.value +ℤ pos n) && are_properties_empty t.properties)) [
          | inl empty ↦ absurd (uncovered n positive (rw (before, empty) at covered))
          | inr kept ↦ rw (before, kept) (ap (λ x. record t { value = x }) (undo t.value (pos n)))
        ]

    -- A mint and then a burn with the same input, where both succeed: the account has the balance that
    -- it had; the token under its key is the one that was read before the mint, in the form in which
    -- it is stored; and every other token of every account is as it was.
    pub burn_after_mint :
        (p : ℕ) (i : ContractCallInput) (token_id vb : Bytes) (rest : List Bytes) (w : World A D)
        (out out' : VmOutput)
        → i.arguments ≡ token_id ∷ vb ∷ rest
        → (process_local_mint e f (some p) (some i) w).0 ≡ ok out
        → let w' = (process_local_mint e f (some p) (some i) w).1 in
          let w'' = (process_local_burn e f (some p) (some i) w').1 in
          let key = dcdt_token_key e.core token_id in
          (process_local_burn e f (some p) (some i) w').0 ≡ ok out'
          → (held e w'' p key ≡ held e w p key)
            × ((t : DigitalToken) × (token_at e w p key ≡ ok t)
                × (token_at e w'' p key ≡ ok (stored e t)))
            × ((q : ℕ) (j : Bytes) → (q ≢ p) ⊎ (j ≢ key) → token_at e w'' q j ≡ token_at e w q j)
    burn_after_mint p i token_id vb rest w out out' args h h' =
        let key = dcdt_token_key e.core token_id in
        let v = pos (set_bytes vb) in
        let w' = (process_local_mint e f (some p) (some i) w).1 in
        let w'' = (process_local_burn e f (some p) (some i) w').1 in
        let c = local_mint-Credited p i token_id vb rest w out args h in
        let d = local_burn-Credited p i token_id vb rest w' out' args h' in
        let (_, positive, _, _, _, _, _, _) =
          local_mint_steps e f p i token_id vb rest w out args h in
        (
          (held-Credited e p key (pos 0 -ℤ v) w' w'' d).0
              ∙ ap (λ b. b +ℤ (pos 0 -ℤ v)) (held-Credited e p key v w w' c).0
              ∙ undo (held e w p key) v,
          (
            c.before,
            c.found,
            d.after
                ∙ ap (λ t. ok (stored e t))
                    (restored c.before d.before (set_bytes vb) (ok-inj (sym d.found ∙ c.after))
                      d.covered positive),
          ),
          λ q j o. d.others q j o ∙ c.others q j o,
        )

    failed-Unchanged : (x : Error) (w w' : World A D) → FailedBalance e f x w w' → Unchanged e w w'
    failed-Unchanged x w w' (inl same) = λ q j. rw same
    failed-Unchanged x w w' (inr (p, key, value, ret, (failed, last))) =
        rw last
          (add_to_dcdt_balance-failed e store marshaller f.settings p key value ret x w failed)

    -- A local mint that returns an error, whatever the account, the input and its arguments, has
    -- changed no balance.
    pub local_mint_failed :
        (acnt : Option ℕ) (input : Option ContractCallInput) (x : Error) (w : World A D)
        → (process_local_mint e f acnt input w).0 ≡ err x
        → Unchanged e w (process_local_mint e f acnt input w).1
    local_mint_failed acnt input x w h =
        failed-Unchanged x w (process_local_mint e f acnt input w).1
          (local_mint_failed_steps e f acnt input x w h)

    -- A local burn that returns an error, whatever the account, the input and its arguments, has
    -- changed no balance.
    pub local_burn_failed :
        (acnt : Option ℕ) (input : Option ContractCallInput) (x : Error) (w : World A D)
        → (process_local_burn e f acnt input w).0 ≡ err x
        → Unchanged e w (process_local_burn e f acnt input w).1
    local_burn_failed acnt input x w h =
        failed-Unchanged x w (process_local_burn e f acnt input w).1
          (local_burn_failed_steps e f acnt input x w h)

  -- A burn at the system contract that succeeds was sent to that contract, and takes exactly the
  -- positive value of its second argument from the sender's balance and from no other.
  pub burn_effect :
      (cost : ℕ) (s : SettingsHandler (World A D)) (p : ℕ) (i : ContractCallInput)
      (token_id vb : Bytes) (w : World A D) (out : VmOutput)
      → i.arguments ≡ token_id ∷ vb ∷ []
      → (process_burn e cost s (some p) (some i) w).0 ≡ ok out
      → (i.recipient_addr ≡ e.dcdt_sc_address)
        × (0 < set_bytes vb)
        × (cost ≤ i.gas_provided)
        × Credited e p
            (dcdt_token_key e.core token_id)
            (pos 0 -ℤ pos (set_bytes vb))
            w
            (process_burn e cost s (some p) (some i) w).1
  burn_effect cost s p i token_id vb w out args h =
      let (at_contract, positive, gas, added, last) =
        burn_steps e cost s p i token_id vb w out args h in
      (
        at_contract,
        positive,
        gas,
        rw last (
            add_to_dcdt_balance-Credited e store marshaller s p (dcdt_token_key e.core token_id)
              (pos 0 -ℤ pos (set_bytes vb)) i.return_call_after_error w added),
      )
