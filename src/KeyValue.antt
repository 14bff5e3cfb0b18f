-- ===== src/KeyValue.antt =====
-- builtInFunctions/keyValueStorage.go: an account writes keys and values of its own data trie.
pub mod Effect
use k_chain_vm_common_go.Common.{
  ℕ, ◌+◌, ◌-◌, ◌*◌, ◌%◌, Bool, true, false, not, List, [], ◌∷◌, Option, none, some, Bytes,
  bytes_equal, ltb, ◌==◌, if◌then◌else◌, length,
}
use k_chain_vm_common_go.Numbers.{u64_mod, sub_u64}
use k_chain_vm_common_go.Errors.{
  HostError, Error, Result, ok, err, host, nil_vm_input, invalid_arguments, not_enough_gas,
  built_in_function_called_with_value, nil_sc_dest_account, operation_not_permitted, runtime_panic,
  is_get_node_from_db_error,
}
use k_chain_vm_common_go.Exec.{Exec, pure, raise, gets, lift, reads, fail_if, ◌>>=◌, ◌>>◌}
use k_chain_vm_common_go.Vm.{ContractCallInput, VmOutput}
use k_chain_vm_common_go.Env.{Env, World, Flag, fix_gas_remaining_for_save_key_value_flag}
use k_chain_vm_common_go.Address.{is_smart_contract_address, is_allowed_to_save_under_key}
use k_chain_vm_common_go.Logs.{new_output}
use k_chain_vm_common_go.Balance.{is_zero, save_at}

-- The fields of BaseOperationCost that are read here.
pub record BaseOperationCost : Type 0 where
  pub store_per_byte : ℕ
  pub persist_per_byte : ℕ
  pub data_copy_per_byte : ℕ

pub record SaveKeyValueStorage : Type 0 where
  pub gas_config : BaseOperationCost
  pub func_gas_cost : ℕ

-- `a + b * c` on uint64.
abbrev pub charge : ℕ → ℕ → ℕ → ℕ
charge a b c = (a + b * c) % u64_mod

module _ {A D : Type 0} (e : Env A D) (k : SaveKeyValueStorage) where
  -- checkArgumentsForSaveKeyValue; it gives the input and the account. A nil call value panics.
  unfoldable pub check_arguments_for_save_key_value :
      Option ℕ → Option ContractCallInput → Result (ContractCallInput × ℕ)
  check_arguments_for_save_key_value acnt_dst none = err nil_vm_input
  check_arguments_for_save_key_value acnt_dst (some input) =
      if ltb (length input.arguments) 2
      then err invalid_arguments
      else if not (length input.arguments % 2 == 0)
      then err invalid_arguments
      else elim input.call_value [
        | none ↦ err runtime_panic
        | some call_value ↦
            if not (is_zero call_value)
            then err built_in_function_called_with_value
            else elim acnt_dst [
              | none ↦ err nil_sc_dest_account
              | some dst ↦
                  if not (bytes_equal input.caller_addr input.recipient_addr)
                  then err operation_not_permitted
                  else if is_smart_contract_address input.caller_addr
                  then err operation_not_permitted
                  else ok (input, dst)
            ]
      ]

  -- The value that is compared: only a missing node is an error.
  abbrev pub old_value_of : Bytes × Option HostError → Result Bytes
  old_value_of (b, some x) = if is_get_node_from_db_error (some x) then err (host x) else ok b
  old_value_of (b, none) = ok b

  -- One round of the loop, from the gas used so far to the gas used after it.
  unfoldable pub save_key_value_pair :
      ℕ → ContractCallInput → Bytes → Bytes → ℕ → Exec (World A D) ℕ
  save_key_value_pair dst input key value gas = do
    let use_gas = charge gas (length value + length key) k.gas_config.persist_per_byte
    fail_if (not (is_allowed_to_save_under_key e.core key)) operation_not_permitted
    old_value ← reads (λ w. old_value_of (e.retrieve_value (w.accounts dst) key))
    if bytes_equal old_value value then pure use_gas else do
      let length_change = length value - length old_value
      let use_gas' = charge use_gas k.gas_config.store_per_byte length_change
      fail_if (ltb input.gas_provided use_gas') not_enough_gas
      save_at e dst key value
      pure use_gas'

  -- The loop over the arguments, two by two.
  unfoldable pub save_key_value_pairs : ℕ → ContractCallInput → List Bytes → ℕ → Exec (World A D) ℕ
  save_key_value_pairs dst input [] gas = pure gas
  save_key_value_pairs dst input (key ∷ []) gas = raise runtime_panic
  save_key_value_pairs dst input (key ∷ value ∷ args) gas =
      save_key_value_pair dst input key value gas >>= λ use_gas.
      save_key_value_pairs dst input args use_gas

  -- subtractGasFromVMoutput, on the gas that remains.
  unfoldable pub subtract_gas_from_vm_output : ℕ → ℕ → Result VmOutput
  unfolding sub_u64
  subtract_gas_from_vm_output gas_remaining used_gas =
      if not (e.is_flag_enabled fix_gas_remaining_for_save_key_value_flag)
      then ok (new_output (sub_u64 gas_remaining used_gas))
      else if ltb gas_remaining used_gas
      then err not_enough_gas
      else ok (new_output (sub_u64 gas_remaining used_gas))

  -- (*saveKeyValueStorage).ProcessBuiltinFunction
  unfoldable pub process_save_key_value :
      Option ℕ → Option ContractCallInput → Exec (World A D) VmOutput
  process_save_key_value acnt_dst input = do
    (vm_input, dst) ← lift (check_arguments_for_save_key_value acnt_dst input)
    use_gas ← save_key_value_pairs dst vm_input vm_input.arguments k.func_gas_cost
    lift (subtract_gas_from_vm_output vm_input.gas_provided use_gas)
