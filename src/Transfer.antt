-- ===== src/Transfer.antt =====
-- builtInFunctions/dcdtTransfer.go: the transfer of a fungible token. A nil account is one of
-- another shard; the two references may also be the same account.
pub mod Steps
pub mod Limited
pub mod Effect
pub mod Shards
pub mod Gas
use k_chain_vm_common_go.Common.{
  ℕ, ◌+◌, ◌-◌, Bool, true, false, not, ◌&&◌, List, [], ◌∷◌, ◌++◌, Option, none, some, Bytes,
  bytes_equal, ltb, leb, ◌==◌, if◌then◌else◌, length, drop,
}
use k_chain_vm_common_go.Common.Int.{ℤ, pos, negsuc, ◌-ℤ◌}
use k_chain_vm_common_go.Numbers.{sub_u64, set_bytes, safe_sub_u64}
use k_chain_vm_common_go.Errors.{
  Error, Result, ok, err, invalid_arguments, invalid_rcv_addr, negative_value, not_enough_gas,
}
use k_chain_vm_common_go.Exec.{Exec, pure, raise, gets, lift, reads, fail_if, index, ◌>>=◌, ◌>>◌}
use k_chain_vm_common_go.Vm.{ContractCallInput, VmOutput, CallType, is_asynchronous_call_back}
use k_chain_vm_common_go.Env.{
  Core, Env, World, dcdt_token_key, Flag, consistent_tokens_values_length_check_flag,
  check_correct_token_id_for_transfer_role_flag,
}
use k_chain_vm_common_go.Interfaces.{SettingsHandler, RoleHandler, PayableChecker}
use k_chain_vm_common_go.Address.{is_smart_contract_address}
use k_chain_vm_common_go.Logs.{
  TopicTokenData, add_dcdt_entry_for_transfer_in_vm_output, add_output_transfer_to_vm_output,
  compute_gas_remaining, new_output,
}
use k_chain_vm_common_go.Balance.{add_to_dcdt_balance}
use k_chain_vm_common_go.Local.{check_basic_dcdt_arguments}

-- dcdtTransfer
pub record TransferFunction (W : Type 0) : Type 0 where
  pub func_gas_cost : ℕ
  pub settings : SettingsHandler W
  pub roles : RoleHandler W
  pub payable_handler : PayableChecker W

-- `a, _ := SafeSubUint64(…)`: 0 with the error.
abbrev pub safe_sub_or_zero : ℕ → ℕ → ℕ
safe_sub_or_zero a b = elim (safe_sub_u64 a b) [ none ↦ 0 | some d ↦ d ]

module _ {A D : Type 0} (e : Env A D) (f : TransferFunction (World A D)) where
  -- checkIfTransferCanHappenWithLimitedTransfer
  unfoldable pub check_limited_transfer :
      Bytes → Bytes → Bytes → Bytes → Option ℕ → Option ℕ → Bool → World A D → Result (Unit {0})
  check_limited_transfer token_id key sender_address destination_address none acnt_dst ret w = ok tt
  check_limited_transfer token_id key sender_address destination_address (some snd) acnt_dst ret w =
      if ret
      then ok tt
      else if not (f.settings.is_limited_transfer w key)
      then ok tt
      else if f.settings.is_sender_or_destination_with_transfer_role w sender_address
          destination_address token_id
      then ok tt
      else elim (f.roles.check_allowed_to_execute w (some snd) token_id e.dcdt_role_transfer) [
        | ok _ ↦ ok tt
        | err _ ↦ f.roles.check_allowed_to_execute w acnt_dst token_id e.dcdt_role_transfer
      ]

  -- The sender pays the gas and the value.
  unfoldable pub debit_sender :
      Option ℕ → ContractCallInput → Bytes → ℕ → Exec (World A D) (Unit {0})
  debit_sender none vm_input key value = pure tt
  debit_sender (some snd) vm_input key value = do
    fail_if (ltb vm_input.gas_provided f.func_gas_cost) not_enough_gas
    add_to_dcdt_balance e snd key (pos 0 -ℤ pos value) f.settings vm_input.return_call_after_error

  -- The log entry of a transfer.
  abbrev pub log_transfer : ContractCallInput → Bytes → ℕ → Bytes → VmOutput → VmOutput
  log_transfer vm_input token_id value destination =
      add_dcdt_entry_for_transfer_in_vm_output vm_input e.built_in_function_dcdt_transfer
        destination (record { token_id = token_id; nonce = 0; value = pos value } ∷ [])

  -- The output of a transfer within the shard of the destination.
  unfoldable pub output_on_destination :
      Option ℕ → ContractCallInput → Bytes → ℕ → Bool → Bytes → ℕ → Exec (World A D) VmOutput
  output_on_destination acnt_snd vm_input token_id value true dst_address gas_remaining = do
    function ← index vm_input.arguments e.min_len_arguments_dcdt_transfer
    let call_args = drop (e.min_len_arguments_dcdt_transfer + 1) vm_input.arguments
    pure (
        log_transfer vm_input token_id value dst_address (
          add_output_transfer_to_vm_output 1 vm_input.caller_addr function call_args
            vm_input.recipient_addr vm_input.gas_locked vm_input.call_type
            (new_output (safe_sub_or_zero vm_input.gas_provided f.func_gas_cost))))
  output_on_destination acnt_snd vm_input token_id value false dst_address gas_remaining = pure (
      log_transfer vm_input token_id value dst_address (
        new_output (elim acnt_snd [
          | some snd ↦ gas_remaining
          | none ↦
              if is_asynchronous_call_back vm_input.call_type
              then vm_input.gas_provided
              else gas_remaining
        ])))

  -- The output of a transfer whose destination is in another shard.
  unfoldable pub output_cross_shard : ContractCallInput → Bytes → ℕ → ℕ → VmOutput
  output_cross_shard vm_input token_id value gas_remaining =
      log_transfer vm_input token_id value vm_input.recipient_addr (
        if is_smart_contract_address vm_input.caller_addr
        then add_output_transfer_to_vm_output 1 vm_input.caller_addr
            e.built_in_function_dcdt_transfer vm_input.arguments vm_input.recipient_addr
            vm_input.gas_locked vm_input.call_type (new_output gas_remaining)
        else new_output gas_remaining)

  -- The destination is credited, if it is in this shard.
  unfoldable pub credit_destination :
      Option ℕ → Option ℕ → ContractCallInput → Bytes → Bytes → ℕ → ℕ → Exec (World A D) VmOutput
  credit_destination acnt_snd none vm_input token_id key value gas_remaining =
      pure (output_cross_shard vm_input token_id value gas_remaining)
  credit_destination acnt_snd (some dst) vm_input token_id key value gas_remaining = do
    is_sc_call_after ← reads (λ w.
        f.payable_handler.determine_is_sc_call_after w vm_input vm_input.recipient_addr
          e.min_len_arguments_dcdt_transfer)
    reads (λ w.
        f.payable_handler.check_payable w vm_input vm_input.recipient_addr
          e.min_len_arguments_dcdt_transfer)
    add_to_dcdt_balance e dst key (pos value) f.settings vm_input.return_call_after_error
    dst_address ← gets (λ w. e.address_bytes (w.accounts dst))
    output_on_destination acnt_snd vm_input token_id value is_sc_call_after dst_address
        gas_remaining

  -- The checks before any balance is touched; they give the input, the token and the value.
  unfoldable pub check_transfer :
      Option ℕ
      → Option ℕ
      → Option ContractCallInput
      → Exec (World A D) (ContractCallInput × Bytes × ℕ)
  unfolding check_basic_dcdt_arguments
  check_transfer acnt_snd acnt_dst input = do
    vm_input ← lift (check_basic_dcdt_arguments e input)
    fail_if (e.compute_id vm_input.recipient_addr == e.metachain_shard_id) invalid_rcv_addr
    value_bytes ← index vm_input.arguments 1
    fail_if
        (if e.is_flag_enabled consistent_tokens_values_length_check_flag
          then ltb e.max_len_for_dcdt_issue_mint (length value_bytes)
          else false)
        invalid_arguments
    let value = set_bytes value_bytes
    fail_if (value == 0) negative_value
    token_id ← index vm_input.arguments 0
    let key = dcdt_token_key e.core token_id
    reads (
        check_limited_transfer
          (if e.is_flag_enabled check_correct_token_id_for_transfer_role_flag
            then token_id
            else key)
          key vm_input.caller_addr vm_input.recipient_addr acnt_snd acnt_dst
          vm_input.return_call_after_error)
    pure (vm_input, token_id, value)

  -- (*dcdtTransfer).ProcessBuiltinFunction
  unfoldable pub process_transfer :
      Option ℕ → Option ℕ → Option ContractCallInput → Exec (World A D) VmOutput
  process_transfer acnt_snd acnt_dst input = do
    (vm_input, token_id, value) ← check_transfer acnt_snd acnt_dst input
    let key = dcdt_token_key e.core token_id
    debit_sender acnt_snd vm_input key value
    credit_destination acnt_snd acnt_dst vm_input token_id key value
        (compute_gas_remaining acnt_snd vm_input.gas_provided f.func_gas_cost)
