-- ===== src/Payable.antt =====
-- builtInFunctions/payable.go and disabledPayable.go: whether a transfer to an account must be
-- checked, is accepted, and is followed by a call.
use k_chain_vm_common_go.Common.{
  ℕ, Bool, true, false, not, ◌||◌, [], Bytes, bytes_equal, ltb, leb, ◌==◌, if◌then◌else◌, length,
  get_or,
}
use k_chain_vm_common_go.Errors.{Result, ok, err, account_not_payable}
use k_chain_vm_common_go.Vm.{
  CallType, ContractCallInput, is_asynchronous_call, is_asynchronous_call_back,
  is_dcdt_transfer_and_execute,
}
use k_chain_vm_common_go.Env.{Env, fix_async_callback_check_flag, check_function_argument_flag}
use k_chain_vm_common_go.Address.{is_smart_contract_address}
use k_chain_vm_common_go.Interfaces.{PayableChecker}

module _ {A D : Type 0} (e : Env A D) where
  -- The call type that needs no check, which the flag changes.
  abbrev pub is_type_to_verify : CallType → Bool
  is_type_to_verify t =
      if e.is_flag_enabled fix_async_callback_check_flag
      then is_asynchronous_call_back t
      else is_asynchronous_call t

  -- The last test of mustVerifyPayable. The arguments are longer than the index, so that the
  -- fallback of the lookup is not reached.
  abbrev pub has_function_argument : ContractCallInput → ℕ → Bool
  has_function_argument vm_input min_len_arguments =
      if ltb min_len_arguments (length vm_input.arguments)
      then if e.is_flag_enabled check_function_argument_flag
        then ltb 0 (length (get_or vm_input.arguments min_len_arguments []))
        else true
      else false

  -- (*payableCheck).mustVerifyPayable
  unfoldable pub must_verify_payable : ContractCallInput → ℕ → Bool
  must_verify_payable vm_input min_len_arguments =
      if (if e.is_flag_enabled fix_async_callback_check_flag
        then vm_input.return_call_after_error
        else false)
      then false
      else if is_type_to_verify vm_input.call_type
          || is_dcdt_transfer_and_execute vm_input.call_type
      then false
      else if bytes_equal vm_input.caller_addr e.dcdt_sc_address
      then false
      else not (has_function_argument vm_input min_len_arguments)

  -- (*payableCheck).CheckPayable; `is_payable` is the PayableHandler, which is not implemented here.
  unfoldable pub check_payable :
      (Bytes → Bytes → Result Bool) → ContractCallInput → Bytes → ℕ → Result (Unit {0})
  check_payable is_payable vm_input dst_address min_len_arguments =
      if not (must_verify_payable vm_input min_len_arguments)
      then ok tt
      else elim (is_payable vm_input.caller_addr dst_address) [
        | err x ↦ err x
        | ok payable ↦ if not payable then err account_not_payable else ok tt
      ]

  -- (*payableCheck).DetermineIsSCCallAfter
  unfoldable pub determine_is_sc_call_after : ContractCallInput → Bytes → ℕ → Bool
  determine_is_sc_call_after vm_input dest_address min_len_arguments =
      if leb (length vm_input.arguments) min_len_arguments
      then false
      else if (if vm_input.return_call_after_error
          then not (is_asynchronous_call_back vm_input.call_type)
          else false)
      then false
      else if not (is_smart_contract_address dest_address)
      then false
      else if e.is_flag_enabled check_function_argument_flag
      then not (length (get_or vm_input.arguments min_len_arguments []) == 0)
      else true

  -- payableCheck as a PayableChecker.
  unfoldable pub payable_check : {W : Type 0} → (W → Bytes → Bytes → Result Bool) → PayableChecker W
  payable_check is_payable = record {
    check_payable = λ w i dst n. check_payable (is_payable w) i dst n;
    determine_is_sc_call_after = λ w i dst n. ok (determine_is_sc_call_after i dst n);
  }

-- disabledPayableHandler
unfoldable pub disabled_payable_handler : {W : Type 0} → PayableChecker W
disabled_payable_handler = record {
  check_payable = λ w i dst n. err account_not_payable;
  determine_is_sc_call_after = λ w i dst n. ok false;
}
