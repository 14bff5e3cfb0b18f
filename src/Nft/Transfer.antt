-- ===== src/Nft/Transfer.antt =====
-- builtInFunctions/dcdtNFTTransfer.go: the transfer of a token with a nonce. The account that is loaded
-- for a destination in this shard stands behind the reference `fresh`, which no one else holds.
use k_chain_vm_common_go.Common.{
  ℕ, ◌+◌, ◌*◌, ◌%◌, ◌==◌, Bool, true, false, not, ◌&&◌, ◌||◌, List, [], ◌∷◌, ◌++◌, Option, none,
  some, Bytes, bytes_equal, ltb, if◌then◌else◌, length, take, drop,
}
use k_chain_vm_common_go.Common.Int.{ℤ, pos, ◌+ℤ◌, ◌-ℤ◌}
use k_chain_vm_common_go.Numbers.{u64_mod, set_bytes, to_u64, sub_u64}
use k_chain_vm_common_go.Errors.{
  Result, ok, err, runtime_panic, nft_token_does_not_exist, invalid_arguments, invalid_rcv_addr,
  not_enough_gas, nft_does_not_have_metadata, invalid_nft_quantity,
}
use k_chain_vm_common_go.Exec.{Exec, pure, raise, gets, lift, reads, fail_if, index, ◌>>=◌, ◌>>◌}
use k_chain_vm_common_go.Vm.{ContractCallInput, VmOutput, OutputTransfer, DigitalToken}
use k_chain_vm_common_go.Env.{
  Env, World, set_account, dcdt_token_key, consistent_tokens_values_length_check_flag,
  check_transfer_flag, check_correct_token_id_for_transfer_role_flag,
}
use k_chain_vm_common_go.Interfaces.{StorageHandler}
use k_chain_vm_common_go.Address.{is_smart_contract_address}
use k_chain_vm_common_go.Logs.{
  hex_arguments, add_dcdt_entry_for_transfer_in_vm_output, add_output_transfer_to_vm_output,
  new_output,
}
use k_chain_vm_common_go.Balance.{is_negative, check_froze_and_pause}
use k_chain_vm_common_go.Local.{check_basic_dcdt_arguments}
use k_chain_vm_common_go.KeyValue.{BaseOperationCost}
use k_chain_vm_common_go.Transfer.{TransferFunction, check_limited_transfer}
use k_chain_vm_common_go.TokenStorage.{empty_token}
use k_chain_vm_common_go.Nft.{is_none, deref}
use k_chain_vm_common_go.Nft.Create.{get_account, persist}

-- dcdtNFTTransfer
pub record NftTransferFunction (W : Type 0) : Type 0 where
  pub gas_config : BaseOperationCost
  pub storage : StorageHandler W
  pub base : TransferFunction W
  pub open base use *

abbrev pub zero_byte_array : Bytes
zero_byte_array = 0 ∷ []

-- addNFTTransferToVMOutput
unfoldable pub add_nft_transfer_to_vm_output :
    ContractCallInput → Bytes → Bytes → List Bytes → ℕ → VmOutput → VmOutput
add_nft_transfer_to_vm_output vm_input recipient func_to_call arguments gas_limit vm_output =
    let transfer : OutputTransfer = record {
      index = 1;
      value = pos 0;
      gas_limit = gas_limit;
      gas_locked = vm_input.gas_locked;
      data_bytes = func_to_call ++ hex_arguments arguments;
      call_type = vm_input.call_type;
      sender_address = vm_input.caller_addr;
    } in
    record vm_output {
      output_accounts =
          (recipient, record { address = recipient; output_transfers = transfer ∷ [] }) ∷ [];
    }

module _ {A D : Type 0} (e : Env A D) (f : NftTransferFunction (World A D)) where
  -- What the destination has; a token that does not exist leaves a nil pointer, and panics.
  abbrev pub current_data : Result (DigitalToken × Bool) → Result DigitalToken
  current_data (ok (t, _)) = ok t
  current_data (err nft_token_does_not_exist) = err runtime_panic
  current_data (err x) = err x

  -- addNFTToDestination; it gives the token that was saved, which the caller goes on with.
  unfoldable pub add_nft_to_destination :
      Bytes → Bytes → ℕ → DigitalToken → Bytes → ℕ → Bool → Exec (World A D) DigitalToken
  add_nft_to_destination snd_address dst_address user_account transferred key nonce ret = do
    current ←
        reads
          (λ w. current_data (f.storage.get_dcdt_nft_token_on_destination w user_account key nonce))
    reads (check_froze_and_pause e dst_address key current f.settings ret)
    let sum : DigitalToken = record transferred { value = transferred.value +ℤ current.value }
    _ ← f.storage.save_dcdt_nft_token snd_address user_account key nonce sum false ret
    (if e.same_shard snd_address dst_address
        then pure tt
        else f.storage.add_to_liquidity_system_acc key nonce transferred.value)
    pure sum

  -- The log entry of the transfer.
  abbrev pub log_nft_transfer : ContractCallInput → Bytes → ℕ → ℕ → Bytes → VmOutput → VmOutput
  log_nft_transfer vm_input token_id nonce value destination =
      add_dcdt_entry_for_transfer_in_vm_output vm_input e.built_in_function_dcdt_nft_transfer
        destination (record { token_id = token_id; nonce = nonce; value = pos value } ∷ [])

  -- A call of the contract at the destination, with the arguments after the transfer.
  unfoldable pub call_after : ContractCallInput → Bytes → VmOutput → Exec (World A D) VmOutput
  call_after vm_input recipient vm_output = do
    function ← index vm_input.arguments e.min_len_arguments_dcdt_nft_transfer
    pure (
        add_output_transfer_to_vm_output 1 vm_input.caller_addr function
          (drop (e.min_len_arguments_dcdt_nft_transfer + 1) vm_input.arguments) recipient
          vm_input.gas_locked vm_input.call_type vm_output)

  -- The fourth argument of the transfer's message, and the gas that is left.
  unfoldable pub fourth_argument : Bool → DigitalToken → ℕ → Result (Bytes × ℕ)
  fourth_argument false transferred gas = ok (zero_byte_array, gas)
  fourth_argument true transferred gas = elim (e.marshal_token transferred) [
    | err x ↦ err x
    | ok marshaled ↦
        let gas_for_transfer = length marshaled * f.gas_config.data_copy_per_byte % u64_mod in
        if ltb gas gas_for_transfer
        then err not_enough_gas
        else ok (marshaled, sub_u64 gas gas_for_transfer)
  ]

  -- value.Cmp(oneValue) == 0
  abbrev pub is_one : ℤ → Bool
  is_one (pos n) = n == 1
  is_one _ = false

  -- createNFTOutputTransfers
  unfoldable pub create_nft_output_transfers :
      ContractCallInput → DigitalToken → Bytes → Bytes → ℕ → VmOutput → Exec (World A D) VmOutput
  create_nft_output_transfers vm_input transferred dst_address ticker_id nonce vm_output = do
    was_already_sent ← f.storage.was_already_sent ticker_id nonce dst_address
    (fourth, gas) ← lift (
        fourth_argument (not was_already_sent || is_one transferred.value) transferred
          vm_output.gas_remaining)
    let call_args =
        take 3 vm_input.arguments
        ++ (fourth
            ∷ (if ltb e.min_len_arguments_dcdt_nft_transfer (length vm_input.arguments)
                then drop 4 vm_input.arguments
                else []))
    is_sc_call_after ← reads (λ w.
        f.payable_handler.determine_is_sc_call_after w vm_input dst_address
          e.min_len_arguments_dcdt_nft_transfer)
    if not (e.self_id == e.compute_id dst_address)
        then pure (
            add_nft_transfer_to_vm_output vm_input dst_address e.built_in_function_dcdt_nft_transfer
              call_args (if is_sc_call_after then gas else 0)
              (record vm_output { gas_remaining = if is_sc_call_after then 0 else gas }))
        else if is_sc_call_after
        then call_after vm_input dst_address (record vm_output { gas_remaining = gas })
        else pure (record vm_output { gas_remaining = gas })

  -- The checks on the sender's shard before anything is written; they give the sender's account, the
  -- destination, the token, its nonce, the data and the quantity.
  unfoldable pub check_nft_transfer :
      Option ℕ → ContractCallInput → Exec (World A D) (ℕ × Bytes × Bytes × ℕ × DigitalToken × ℕ)
  check_nft_transfer acnt_snd vm_input = do
    dst_address ← index vm_input.arguments 3
    fail_if (not (length dst_address == length vm_input.caller_addr)) invalid_arguments
    fail_if (bytes_equal dst_address vm_input.caller_addr) invalid_arguments
    fail_if (e.compute_id dst_address == e.metachain_shard_id) invalid_rcv_addr
    fail_if (ltb vm_input.gas_provided f.func_gas_cost) not_enough_gas
    ticker_id ← index vm_input.arguments 0
    nonce_bytes ← index vm_input.arguments 1
    let nonce = to_u64 (set_bytes nonce_bytes)
    snd ← deref acnt_snd
    dcdt_data ←
        reads (λ w.
          f.storage.get_dcdt_nft_token_on_sender w snd (dcdt_token_key e.core ticker_id) nonce)
    fail_if (nonce == 0) nft_does_not_have_metadata
    value_bytes ← index vm_input.arguments 2
    fail_if
        (ltb e.max_len_for_dcdt_issue_mint (length value_bytes)
          && e.is_flag_enabled consistent_tokens_values_length_check_flag)
        invalid_arguments
    let quantity = set_bytes value_bytes
    fail_if (is_negative (dcdt_data.value -ℤ pos quantity)) invalid_nft_quantity
    fail_if (e.is_flag_enabled check_transfer_flag && (quantity == 0)) invalid_nft_quantity
    pure (snd, dst_address, ticker_id, nonce, dcdt_data, quantity)

  -- The quantity comes to the destination, if it is in this shard, and leaves the liquidity if not.
  -- It gives the destination's account, and the token as it then is.
  unfoldable pub move_to_destination :
      ℕ
      → ContractCallInput
      → Bytes
      → Bytes
      → ℕ
      → DigitalToken
      → ℕ
      → Exec (World A D) (Option ℕ × DigitalToken)
  move_to_destination fresh vm_input dst_address key nonce transferred quantity =
      if e.self_id == e.compute_id dst_address
      then (do
        account ← reads (get_account e dst_address)
        (λ w. (ok tt, set_account fresh account w))
        reads (λ w.
            f.payable_handler.check_payable w vm_input dst_address
              e.min_len_arguments_dcdt_nft_transfer)
        sum ←
            add_nft_to_destination vm_input.caller_addr dst_address fresh transferred key nonce
              vm_input.return_call_after_error
        persist e fresh
        pure (some fresh, sum))
      else (f.storage.add_to_liquidity_system_acc key nonce (pos 0 -ℤ pos quantity) >>= λ _.
          pure (none, transferred))

  -- What the sender's shard does after the quantity has moved: the limited transfer and the output.
  unfoldable pub finish_nft_transfer :
      ContractCallInput
      → ℕ
      → Option ℕ
      → DigitalToken
      → Bytes
      → Bytes
      → ℕ
      → ℕ
      → Exec (World A D) VmOutput
  finish_nft_transfer vm_input snd acnt_dst transferred dst_address ticker_id nonce quantity = do
    let key = dcdt_token_key e.core ticker_id
    reads (λ w.
        check_limited_transfer e f.base
          (if e.is_flag_enabled check_correct_token_id_for_transfer_role_flag
            then ticker_id
            else key)
          key (e.address_bytes (w.accounts snd)) dst_address (some snd) acnt_dst
          vm_input.return_call_after_error w)
    vm_output ←
        create_nft_output_transfers vm_input transferred dst_address ticker_id nonce
          (new_output (sub_u64 vm_input.gas_provided f.func_gas_cost))
    pure (log_nft_transfer vm_input ticker_id nonce quantity dst_address vm_output)

  -- What it does after the checks.
  unfoldable pub send_nft :
      ℕ → ContractCallInput → ℕ → Bytes → Bytes → ℕ → DigitalToken → ℕ → Exec (World A D) VmOutput
  send_nft fresh vm_input snd dst_address ticker_id nonce dcdt_data quantity = do
    let key = dcdt_token_key e.core ticker_id
    address ← gets (λ w. e.address_bytes (w.accounts snd))
    _ ←
        f.storage.save_dcdt_nft_token address snd key nonce
          (record dcdt_data { value = dcdt_data.value -ℤ pos quantity }) false
          vm_input.return_call_after_error
    (acnt_dst, transferred) ←
        move_to_destination fresh vm_input dst_address key nonce
          (record dcdt_data { value = pos quantity }) quantity
    finish_nft_transfer vm_input snd acnt_dst transferred dst_address ticker_id nonce quantity

  -- processNFTTransferOnSenderShard
  unfoldable pub process_nft_transfer_on_sender_shard :
      ℕ → Option ℕ → ContractCallInput → Exec (World A D) VmOutput
  process_nft_transfer_on_sender_shard fresh acnt_snd vm_input = do
    (snd, dst_address, ticker_id, nonce, dcdt_data, quantity) ← check_nft_transfer acnt_snd vm_input
    send_nft fresh vm_input snd dst_address ticker_id nonce dcdt_data quantity

  -- The token that a message carries, or the bare quantity of one that was sent before.
  abbrev pub carried : Bytes → ℕ → Result DigitalToken
  carried marshaled value =
      if not (bytes_equal marshaled zero_byte_array)
      then e.unmarshal_token empty_token marshaled
      else ok (record empty_token { value = pos value; token_type = e.non_fungible })

  -- The transfer that comes from another shard.
  unfoldable pub process_nft_transfer_on_destination :
      ℕ → ContractCallInput → Exec (World A D) VmOutput
  process_nft_transfer_on_destination dst vm_input = do
    ticker_id ← index vm_input.arguments 0
    nonce_bytes ← index vm_input.arguments 1
    value_bytes ← index vm_input.arguments 2
    marshaled ← index vm_input.arguments 3
    let key = dcdt_token_key e.core ticker_id
    let nonce = to_u64 (set_bytes nonce_bytes)
    let value = set_bytes value_bytes
    transferred ← lift (carried marshaled value)
    reads (λ w.
        f.payable_handler.check_payable w vm_input vm_input.recipient_addr
          e.min_len_arguments_dcdt_nft_transfer)
    _ ←
        add_nft_to_destination vm_input.caller_addr vm_input.recipient_addr dst transferred key
          nonce vm_input.return_call_after_error
    vm_output ←
        (if ltb e.min_len_arguments_dcdt_nft_transfer (length vm_input.arguments)
            && is_smart_contract_address vm_input.recipient_addr
          then call_after vm_input vm_input.recipient_addr (new_output vm_input.gas_provided)
          else pure (new_output vm_input.gas_provided))
    address ← gets (λ w. e.address_bytes (w.accounts dst))
    pure (log_nft_transfer vm_input ticker_id nonce value address vm_output)

  -- (*dcdtNFTTransfer).ProcessBuiltinFunction
  unfoldable pub process_nft_transfer :
      ℕ → Option ℕ → Option ℕ → Option ContractCallInput → Exec (World A D) VmOutput
  process_nft_transfer fresh acnt_snd acnt_dst input = do
    vm_input ← lift (check_basic_dcdt_arguments e input)
    fail_if (ltb (length vm_input.arguments) 4) invalid_arguments
    if bytes_equal vm_input.caller_addr vm_input.recipient_addr
        then process_nft_transfer_on_sender_shard fresh acnt_snd vm_input
        else if not (is_none acnt_snd)
        then raise invalid_rcv_addr
        else elim acnt_dst [
          | none ↦ raise invalid_rcv_addr
          | some dst ↦ process_nft_transfer_on_destination dst vm_input
        ]
