-- ===== src/Local.antt =====
-- builtInFunctions/dcdtLocalMint.go, dcdtLocalBurn.go and dcdtBurn.go.
pub mod Steps
pub mod Effect
use k_chain_vm_common_go.Common.{
  ℕ, ◌-◌, Bool, true, false, not, List, [], ◌∷◌, ◌++◌, Option, none, some, Bytes, bytes_equal, ltb,
  leb, ◌==◌, if◌then◌else◌, length,
}
use k_chain_vm_common_go.Common.Int.{ℤ, pos, negsuc, ◌-ℤ◌}
use k_chain_vm_common_go.Numbers.{sub_u64, set_bytes}
use k_chain_vm_common_go.Errors.{
  Error, Result, ok, err, nil_vm_input, nil_value, built_in_function_called_with_value,
  invalid_arguments, invalid_rcv_addr, nil_user_account, negative_value, not_enough_gas,
  address_is_not_dcdt_system_sc,
}
use k_chain_vm_common_go.Exec.{Exec, pure, raise, gets, lift, reads, fail_if, index, ◌>>=◌, ◌>>◌}
use k_chain_vm_common_go.Vm.{ContractCallInput, VmOutput}
use k_chain_vm_common_go.Env.{
  Core, Env, World, dcdt_token_key, Flag, consistent_tokens_values_length_check_flag,
}
use k_chain_vm_common_go.Interfaces.{SettingsHandler, RoleHandler}
use k_chain_vm_common_go.Address.{is_smart_contract_address}
use k_chain_vm_common_go.Logs.{
  add_dcdt_entry_in_vm_output, add_output_transfer_to_vm_output, compute_gas_remaining, new_output,
}
use k_chain_vm_common_go.Balance.{is_zero, add_to_dcdt_balance}

-- What a local mint or burn function holds: its gas cost, and the handlers of roles and settings.
pub record LocalFunction (W : Type 0) : Type 0 where
  pub func_gas_cost : ℕ
  pub settings : SettingsHandler W
  pub roles : RoleHandler W

module _ {A D : Type 0} (e : Env A D) where
  -- checkBasicDCDTArguments; it gives the input that it has found not to be nil.
  unfoldable pub check_basic_dcdt_arguments : Option ContractCallInput → Result ContractCallInput
  check_basic_dcdt_arguments none = err nil_vm_input
  check_basic_dcdt_arguments (some vm_input) = elim vm_input.call_value [
    | none ↦ err nil_value
    | some call_value ↦
        if not (is_zero call_value)
        then err built_in_function_called_with_value
        else if ltb (length vm_input.arguments) e.min_len_arguments_dcdt_transfer
        then err invalid_arguments
        else ok vm_input
  ]

  -- A reference that must not be nil.
  abbrev pub not_nil : Option ℕ → Exec (World A D) ℕ
  not_nil none = raise nil_user_account
  not_nil (some p) = pure p

  -- checkInputArgumentsForLocalAction; it gives the input and the account, which are not nil.
  unfoldable pub check_input_arguments_for_local_action :
      Option ℕ → Option ContractCallInput → ℕ → Exec (World A D) (ContractCallInput × ℕ)
  unfolding check_basic_dcdt_arguments
  check_input_arguments_for_local_action acnt_snd input func_gas_cost = do
    vm_input ← lift (check_basic_dcdt_arguments input)
    fail_if (not (bytes_equal vm_input.caller_addr vm_input.recipient_addr)) invalid_rcv_addr
    snd ← not_nil acnt_snd
    value ← index vm_input.arguments 1
    fail_if (set_bytes value == 0) negative_value
    fail_if (ltb vm_input.gas_provided func_gas_cost) not_enough_gas
    pure (vm_input, snd)

  -- (*dcdtLocalMint).ProcessBuiltinFunction
  unfoldable pub process_local_mint :
      LocalFunction (World A D) → Option ℕ → Option ContractCallInput → Exec (World A D) VmOutput
  process_local_mint f acnt_snd input = do
    (vm_input, snd) ← check_input_arguments_for_local_action acnt_snd input f.func_gas_cost
    token_id ← index vm_input.arguments 0
    reads (λ w. f.roles.check_allowed_to_execute w (some snd) token_id e.dcdt_role_local_mint)
    value_bytes ← index vm_input.arguments 1
    fail_if (ltb e.max_len_for_dcdt_issue_mint (length value_bytes)) invalid_arguments
    let value = set_bytes value_bytes
    add_to_dcdt_balance e snd (dcdt_token_key e.core token_id) (pos value) f.settings
        vm_input.return_call_after_error
    pure (
        add_dcdt_entry_in_vm_output e.built_in_function_dcdt_local_mint token_id 0 (pos value)
          (vm_input.caller_addr ∷ []) (new_output (sub_u64 vm_input.gas_provided f.func_gas_cost)))

  -- (*dcdtLocalBurn).isAllowedToBurn
  unfoldable pub is_allowed_to_burn :
      LocalFunction (World A D) → ℕ → Bytes → World A D → Result (Unit {0})
  is_allowed_to_burn f snd token_id w =
      if f.settings.is_burn_for_all w (dcdt_token_key e.core token_id)
      then ok tt
      else f.roles.check_allowed_to_execute w (some snd) token_id e.dcdt_role_local_burn

  -- (*dcdtLocalBurn).ProcessBuiltinFunction
  unfoldable pub process_local_burn :
      LocalFunction (World A D) → Option ℕ → Option ContractCallInput → Exec (World A D) VmOutput
  process_local_burn f acnt_snd input = do
    (vm_input, snd) ← check_input_arguments_for_local_action acnt_snd input f.func_gas_cost
    token_id ← index vm_input.arguments 0
    reads (is_allowed_to_burn f snd token_id)
    value_bytes ← index vm_input.arguments 1
    fail_if
        (if e.is_flag_enabled consistent_tokens_values_length_check_flag
          then ltb e.max_len_for_dcdt_issue_mint (length value_bytes)
          else false)
        invalid_arguments
    let value = set_bytes value_bytes
    add_to_dcdt_balance e snd (dcdt_token_key e.core token_id) (pos 0 -ℤ pos value) f.settings
        vm_input.return_call_after_error
    pure (
        add_dcdt_entry_in_vm_output e.built_in_function_dcdt_local_burn token_id 0 (pos value)
          (vm_input.caller_addr ∷ []) (new_output (sub_u64 vm_input.gas_provided f.func_gas_cost)))

  -- The output transfer to the system contract, for a caller that is a smart contract.
  abbrev pub burn_output : ContractCallInput → VmOutput → VmOutput
  burn_output vm_input out =
      if is_smart_contract_address vm_input.caller_addr
      then add_output_transfer_to_vm_output 1 vm_input.caller_addr e.built_in_function_dcdt_burn
          vm_input.arguments vm_input.recipient_addr vm_input.gas_locked vm_input.call_type out
      else out

  -- (*dcdtBurn).ProcessBuiltinFunction
  unfoldable pub process_burn :
      ℕ
      → SettingsHandler (World A D)
      → Option ℕ
      → Option ContractCallInput
      → Exec (World A D) VmOutput
  unfolding check_basic_dcdt_arguments
  process_burn func_gas_cost settings acnt_snd input = do
    vm_input ← lift (check_basic_dcdt_arguments input)
    fail_if (not (length vm_input.arguments == 2)) invalid_arguments
    value_bytes ← index vm_input.arguments 1
    let value = set_bytes value_bytes
    fail_if (value == 0) negative_value
    fail_if (not (bytes_equal vm_input.recipient_addr e.dcdt_sc_address))
        address_is_not_dcdt_system_sc
    snd ← not_nil acnt_snd
    token_id ← index vm_input.arguments 0
    fail_if (ltb vm_input.gas_provided func_gas_cost) not_enough_gas
    add_to_dcdt_balance e snd (dcdt_token_key e.core token_id) (pos 0 -ℤ pos value) settings
        vm_input.return_call_after_error
    pure (
        add_dcdt_entry_in_vm_output e.built_in_function_dcdt_burn token_id 0 (pos value)
          (vm_input.caller_addr ∷ [])
          (burn_output vm_input
            (new_output (compute_gas_remaining acnt_snd vm_input.gas_provided func_gas_cost))))
