-- ===== src/Local/Steps.antt =====
-- The steps of a mint or a burn that succeeds, and of one that fails.
use k_chain_vm_common_go.Common.{
  ℕ, ◌≤◌, ◌<◌, ◌≡◌, ◌⊎◌, inl, Bool, inr, List, [], ◌∷◌, Option, some, Bytes, arith, bytes_equal_iff,
  length,
}
use k_chain_vm_common_go.Common.Int.{ℤ, pos, ◌-ℤ◌}
use k_chain_vm_common_go.Numbers.{sub_u64, set_bytes}
use k_chain_vm_common_go.Errors.{Error, ok, err, Result-cases}
use k_chain_vm_common_go.Exec.{element_at}
use k_chain_vm_common_go.Vm.{ContractCallInput, VmOutput}
use k_chain_vm_common_go.Env.{Env, World, dcdt_token_key}
use k_chain_vm_common_go.Interfaces.{SettingsHandler}
use k_chain_vm_common_go.Balance.{add_to_dcdt_balance}
use k_chain_vm_common_go.Logs.{add_dcdt_entry_in_vm_output}
use k_chain_vm_common_go.Local.{
  LocalFunction, check_input_arguments_for_local_action, process_local_mint, is_allowed_to_burn,
  process_local_burn, process_burn,
}

module _ {A D : Type 0} (e : Env A D) where
  module _ (f : LocalFunction (World A D)) where
    check_local-world :
        (acnt : Option ℕ) (input : Option ContractCallInput) (cost : ℕ) (w : World A D)
        → (check_input_arguments_for_local_action e acnt input cost w).1 ≡ w
    unfolding check_input_arguments_for_local_action
    check_local-world acnt input cost w = ground arith

    -- The checks give the input and the account, of a caller that is the receiver too, with a
    -- positive value and the gas.
    check_local_same :
        (p : ℕ) (i i' : ContractCallInput) (p' cost : ℕ) (token_id vb : Bytes) (rest : List Bytes)
        (w : World A D)
        → i.arguments ≡ token_id ∷ vb ∷ rest
        → (check_input_arguments_for_local_action e (some p) (some i) cost w).0 ≡ ok (i', p')
        → (i' ≡ i)
          × (p' ≡ p)
          × (i.caller_addr ≡ i.recipient_addr)
          × (0 < set_bytes vb)
          × (cost ≤ i.gas_provided)
    unfolding check_input_arguments_for_local_action
    check_local_same p i i' p' cost token_id vb rest w args h =
        ground (arith, bytes_equal_iff i.caller_addr i.recipient_addr)

    -- A mint that succeeds.
    pub local_mint_steps :
        (p : ℕ) (i : ContractCallInput) (token_id vb : Bytes) (rest : List Bytes) (w : World A D)
        (out : VmOutput)
        → i.arguments ≡ token_id ∷ vb ∷ rest
        → (process_local_mint e f (some p) (some i) w).0 ≡ ok out
        → let added =
            add_to_dcdt_balance e p
              (dcdt_token_key e.core token_id)
              (pos (set_bytes vb))
              f.settings
              i.return_call_after_error
              w in
          (i.caller_addr ≡ i.recipient_addr)
          × (0 < set_bytes vb)
          × (f.func_gas_cost ≤ i.gas_provided)
          × (length vb ≤ e.max_len_for_dcdt_issue_mint)
          × (f.roles.check_allowed_to_execute w (some p) token_id e.dcdt_role_local_mint ≡ ok tt)
          × (added.0 ≡ ok tt)
          × ((process_local_mint e f (some p) (some i) w).1 ≡ added.1)
          × (out.gas_remaining ≡ sub_u64 i.gas_provided f.func_gas_cost)
    unfolding process_local_mint add_dcdt_entry_in_vm_output
    local_mint_steps p i token_id vb rest w out args h =
        elim (Result-cases
          (check_input_arguments_for_local_action e (some p) (some i) f.func_gas_cost w).0) [
            | inl ((i', p'), checked) ↦ ground (
              arith,
              check_local-world (some p) (some i) f.func_gas_cost w,
              check_local_same p i i' p' f.func_gas_cost token_id vb rest w args checked,
            )
            | inr (x, refused) ↦ ground arith
          ]

    -- A burn that succeeds.
    pub local_burn_steps :
        (p : ℕ) (i : ContractCallInput) (token_id vb : Bytes) (rest : List Bytes) (w : World A D)
        (out : VmOutput)
        → i.arguments ≡ token_id ∷ vb ∷ rest
        → (process_local_burn e f (some p) (some i) w).0 ≡ ok out
        → let added =
            add_to_dcdt_balance e p
              (dcdt_token_key e.core token_id)
              (pos 0 -ℤ pos (set_bytes vb))
              f.settings
              i.return_call_after_error
              w in
          (i.caller_addr ≡ i.recipient_addr)
          × (0 < set_bytes vb)
          × (f.func_gas_cost ≤ i.gas_provided)
          × (is_allowed_to_burn e f p token_id w ≡ ok tt)
          × (added.0 ≡ ok tt)
          × ((process_local_burn e f (some p) (some i) w).1 ≡ added.1)
          × (out.gas_remaining ≡ sub_u64 i.gas_provided f.func_gas_cost)
    unfolding process_local_burn add_dcdt_entry_in_vm_output
    local_burn_steps p i token_id vb rest w out args h =
        elim (Result-cases
          (check_input_arguments_for_local_action e (some p) (some i) f.func_gas_cost w).0) [
            | inl ((i', p'), checked) ↦ ground (
              arith,
              check_local-world (some p) (some i) f.func_gas_cost w,
              check_local_same p i i' p' f.func_gas_cost token_id vb rest w args checked,
            )
            | inr (x, refused) ↦ ground arith
          ]

    -- Nothing was written, or what one change of a balance wrote that failed.
    abbrev WroteBalance : Error → World A D → World A D → ℕ → Bytes → ℤ → Bool → Type 0
    WroteBalance x w w' p key value ret =
        let changed = add_to_dcdt_balance e p key value f.settings ret w in
        (w' ≡ w) ⊎ ((changed.0 ≡ err x) × (w' ≡ changed.1))

    abbrev pub FailedBalance : Error → World A D → World A D → Type 0
    FailedBalance x w w' =
        (w' ≡ w)
        ⊎ ((p : ℕ) × (key : Bytes) × (value : ℤ) × (ret : Bool) × (let changed =
                add_to_dcdt_balance e p key value f.settings ret w in
              (changed.0 ≡ err x) × (w' ≡ changed.1)))

    failed_of :
        (x : Error) (w w' : World A D) (p : ℕ) (key : Bytes) (value : ℤ) (ret : Bool)
        → WroteBalance x w w' p key value ret
        → FailedBalance x w w'
    failed_of x w w' p key value ret (inl same) = inl same
    failed_of x w w' p key value ret (inr (failed, last)) = inr (p, key, value, ret, (failed, last))

    local_mint_ends :
        (acnt : Option ℕ) (input : Option ContractCallInput) (x : Error) (w : World A D)
        (i : ContractCallInput) (p : ℕ) (token_id vb : Bytes)
        → (check_input_arguments_for_local_action e acnt input f.func_gas_cost w).0 ≡ ok (i, p)
        → element_at i.arguments 0 ≡ ok token_id
        → element_at i.arguments 1 ≡ ok vb
        → (process_local_mint e f acnt input w).0 ≡ err x
        → WroteBalance x w
            (process_local_mint e f acnt input w).1
            p
            (dcdt_token_key e.core token_id)
            (pos (set_bytes vb))
            i.return_call_after_error
    unfolding process_local_mint
    local_mint_ends acnt input x w i p token_id vb checked at0 at1 h =
        ground (arith, checked, at0, at1, check_local-world acnt input f.func_gas_cost w)

    -- A mint that fails has written nothing but what the failed credit wrote.
    pub local_mint_failed_steps :
        (acnt : Option ℕ) (input : Option ContractCallInput) (x : Error) (w : World A D)
        → (process_local_mint e f acnt input w).0 ≡ err x
        → FailedBalance x w (process_local_mint e f acnt input w).1
    unfolding process_local_mint
    local_mint_failed_steps acnt input x w h =
        let same = check_local-world acnt input f.func_gas_cost w in
        elim (Result-cases
          (check_input_arguments_for_local_action e acnt input f.func_gas_cost w).0) [
            | inr (y, refused) ↦ inl (ground (arith, refused, same))
            | inl ((i, p), checked) ↦ elim (Result-cases (element_at i.arguments 0)) [
              | inr (y, missing) ↦ inl (ground (arith, checked, missing, same))
              | inl (token_id, at0) ↦ elim (Result-cases (element_at i.arguments 1)) [
                | inr (y, missing) ↦ inl (ground (arith, checked, at0, missing, same))
                | inl (vb, at1) ↦
                    failed_of x w (process_local_mint e f acnt input w).1 p
                      (dcdt_token_key e.core token_id) (pos (set_bytes vb))
                      i.return_call_after_error
                      (local_mint_ends acnt input x w i p token_id vb checked at0 at1 h)
              ]
            ]
          ]

    local_burn_ends :
        (acnt : Option ℕ) (input : Option ContractCallInput) (x : Error) (w : World A D)
        (i : ContractCallInput) (p : ℕ) (token_id vb : Bytes)
        → (check_input_arguments_for_local_action e acnt input f.func_gas_cost w).0 ≡ ok (i, p)
        → element_at i.arguments 0 ≡ ok token_id
        → element_at i.arguments 1 ≡ ok vb
        → (process_local_burn e f acnt input w).0 ≡ err x
        → WroteBalance x w
            (process_local_burn e f acnt input w).1
            p
            (dcdt_token_key e.core token_id)
            (pos 0 -ℤ pos (set_bytes vb))
            i.return_call_after_error
    unfolding process_local_burn
    local_burn_ends acnt input x w i p token_id vb checked at0 at1 h =
        ground (arith, checked, at0, at1, check_local-world acnt input f.func_gas_cost w)

    -- A burn that fails has written nothing but what the failed debit wrote.
    pub local_burn_failed_steps :
        (acnt : Option ℕ) (input : Option ContractCallInput) (x : Error) (w : World A D)
        → (process_local_burn e f acnt input w).0 ≡ err x
        → FailedBalance x w (process_local_burn e f acnt input w).1
    unfolding process_local_burn
    local_burn_failed_steps acnt input x w h =
        let same = check_local-world acnt input f.func_gas_cost w in
        elim (Result-cases
          (check_input_arguments_for_local_action e acnt input f.func_gas_cost w).0) [
            | inr (y, refused) ↦ inl (ground (arith, refused, same))
            | inl ((i, p), checked) ↦ elim (Result-cases (element_at i.arguments 0)) [
              | inr (y, missing) ↦ inl (ground (arith, checked, missing, same))
              | inl (token_id, at0) ↦ elim (Result-cases (element_at i.arguments 1)) [
                | inr (y, missing) ↦ inl (ground (arith, checked, at0, missing, same))
                | inl (vb, at1) ↦
                    failed_of x w (process_local_burn e f acnt input w).1 p
                      (dcdt_token_key e.core token_id) (pos 0 -ℤ pos (set_bytes vb))
                      i.return_call_after_error
                      (local_burn_ends acnt input x w i p token_id vb checked at0 at1 h)
              ]
            ]
          ]

  -- A burn at the system contract that succeeds.
  pub burn_steps :
      (cost : ℕ) (s : SettingsHandler (World A D)) (p : ℕ) (i : ContractCallInput)
      (token_id vb : Bytes) (w : World A D) (out : VmOutput)
      → i.arguments ≡ token_id ∷ vb ∷ []
      → (process_burn e cost s (some p) (some i) w).0 ≡ ok out
      → let added =
          add_to_dcdt_balance e p
            (dcdt_token_key e.core token_id)
            (pos 0 -ℤ pos (set_bytes vb))
            s
            i.return_call_after_error
            w in
        (i.recipient_addr ≡ e.dcdt_sc_address)
        × (0 < set_bytes vb)
        × (cost ≤ i.gas_provided)
        × (added.0 ≡ ok tt)
        × ((process_burn e cost s (some p) (some i) w).1 ≡ added.1)
  unfolding process_burn
  burn_steps cost s p i token_id vb w out args h =
      ground (arith, bytes_equal_iff i.recipient_addr e.dcdt_sc_address)
