-- ===== src/TokenStorage/Sent.antt =====
-- The operations of dcdtDataStorage.go on which shards have the metadata of a token.
use k_chain_vm_common_go.Common.{
  ℕ, zero, suc, ◌+◌, ◌*◌, ◌%◌, ◌-◌, Bool, true, false, not, List, [], ◌∷◌, ◌++◌, Option, none, some,
  Bytes, bytes_equal, ◌==◌, if◌then◌else◌, length, ltb, leb, replicate, set,
}
use k_chain_vm_common_go.Numbers.{u64_mod, set_bytes, to_u64}
use k_chain_vm_common_go.Errors.{
  Result, ok, err, invalid_arguments, nil_transaction_handler, runtime_panic,
}
use k_chain_vm_common_go.Exec.{Exec, pure, raise, lift, reads, ◌>>=◌, ◌>>◌}
use k_chain_vm_common_go.Vm.{DigitalToken}
use k_chain_vm_common_go.Env.{
  Env, World, dcdt_token_key, save_to_system_account_flag, send_always_flag,
}
use k_chain_vm_common_go.Parsers.{Parsed, parsed, rejected, parse_data}
use k_chain_vm_common_go.TokenStorage.{
  compute_dcdt_nft_token_key, empty_token, default_query_options, exists_on_shard,
  get_dcdt_digital_token_data_from_system_account, marshal_and_save_data,
}
use k_chain_vm_common_go.TokenStorage.Saving.{save_dcdt_meta_data_to_system_account}

-- data.TransactionHandler, with what is read of it.
pub record Transaction : Type 0 where
  pub snd_addr : Bytes
  pub rcv_addr : Bytes
  pub tx_data : Bytes

-- vmcommon.MaxLengthForValueToOptTransfer
abbrev pub max_length_for_value_to_opt_transfer : ℕ
max_length_for_value_to_opt_transfer = 32

abbrev pub arguments_per_transfer : ℕ
arguments_per_transfer = 3

-- `p[i]`; out of range Go panics.
abbrev pub byte_at : Bytes → ℕ → Result ℕ
byte_at [] i = err runtime_panic
byte_at (b ∷ bs) zero = ok b
byte_at (b ∷ bs) (suc i) = byte_at bs i

module _ {A D : Type 0} (e : Env A D) where
  -- The marks, as many as there are shards.
  abbrev pub widened : Bytes → Bytes
  widened properties =
      if ltb (length properties) e.number_of_shards
      then properties ++ replicate (e.number_of_shards - length properties) 0
      else properties

  -- The token that was found, marked for the shard if it was not.
  abbrev pub mark_sent : Bytes → ℕ → A → DigitalToken → Exec (World A D) Bool
  mark_sent key dst_shard_id system_acc dcdt_data = do
    let properties = widened dcdt_data.properties
    mark ← lift (byte_at properties dst_shard_id)
    if ltb 0 mark then pure true else do
      _ ←
          marshal_and_save_data e system_acc
            (record dcdt_data { properties = set properties dst_shard_id exists_on_shard }) key
      pure false

  abbrev pub sent_if_found : Bytes → ℕ → Option DigitalToken × A → Exec (World A D) Bool
  sent_if_found key dst_shard_id (none, system_acc) = pure false
  sent_if_found key dst_shard_id (some dcdt_data, system_acc) =
      mark_sent key dst_shard_id system_acc dcdt_data

  -- WasAlreadySentToDestinationShardAndUpdateState
  unfoldable pub was_already_sent : Bytes → ℕ → Bytes → Exec (World A D) Bool
  was_already_sent ticker_id nonce dst_address =
      let dst_shard_id = e.compute_id dst_address in
      let key = compute_dcdt_nft_token_key (dcdt_token_key e.core ticker_id) nonce in
      if not (e.is_flag_enabled save_to_system_account_flag)
      then pure false
      else if nonce == 0
      then pure true
      else if dst_shard_id == e.self_id
      then pure true
      else if e.is_flag_enabled send_always_flag
      then pure false
      else if dst_shard_id == e.metachain_shard_id
      then pure true
      else (reads (get_dcdt_digital_token_data_from_system_account e key default_query_options)
          >>= λ found. sent_if_found key dst_shard_id found)

  -- The metadata of a marshalled token, saved.
  abbrev pub add_marshaled : ℕ → Bytes → Bytes → Bytes → Exec (World A D) (Unit {0})
  add_marshaled snd_shard_id token_id nonce_bytes marshaled =
      lift (e.unmarshal_token empty_token marshaled) >>= λ transfer_data.
      let nonce = to_u64 (set_bytes nonce_bytes) in
      save_dcdt_meta_data_to_system_account e none snd_shard_id
        (compute_dcdt_nft_token_key (dcdt_token_key e.core token_id) nonce) nonce transfer_data true

  -- addMetaDataToSystemAccountFromNFTTransfer; fewer than four arguments panic.
  unfoldable pub add_from_nft_transfer : ℕ → List Bytes → Exec (World A D) (Unit {0})
  add_from_nft_transfer snd_shard_id (token_id ∷ nonce ∷ quantity ∷ marshaled ∷ _) =
      if bytes_equal marshaled (0 ∷ [])
      then pure tt
      else add_marshaled snd_shard_id token_id nonce marshaled
  add_from_nft_transfer snd_shard_id _ = raise runtime_panic

  -- The loop of addMetaDataToSystemAccountFromMultiTransfer, three arguments at a time; past the last
  -- argument it panics.
  unfoldable pub add_from_transfers : ℕ → ℕ → List Bytes → Exec (World A D) (Unit {0})
  add_from_transfers snd_shard_id zero args = pure tt
  add_from_transfers snd_shard_id (suc n) (token_id ∷ nonce ∷ marshaled ∷ args) = do
    (if leb (to_u64 (set_bytes nonce)) 0
        then pure tt
        else if leb (length marshaled) max_length_for_value_to_opt_transfer
        then pure tt
        else add_marshaled snd_shard_id token_id nonce marshaled)
    add_from_transfers snd_shard_id n args
  add_from_transfers snd_shard_id (suc n) _ = raise runtime_panic

  -- addMetaDataToSystemAccountFromMultiTransfer, on the first argument and the others.
  unfoldable pub add_from_multi_transfer : ℕ → List Bytes → Exec (World A D) (Unit {0})
  add_from_multi_transfer snd_shard_id [] = raise runtime_panic
  add_from_multi_transfer snd_shard_id (count ∷ args) =
      let num_of_transfers = to_u64 (set_bytes count) in
      if num_of_transfers == 0
      then raise invalid_arguments
      else if ltb (suc (length args)) ((num_of_transfers * arguments_per_transfer + 1) % u64_mod)
      then raise invalid_arguments
      else add_from_transfers snd_shard_id num_of_transfers args

  -- The switch of SaveNFTMetaDataToSystemAccount on the function of the transaction.
  abbrev pub add_by_function : ℕ → Parsed (Bytes × List Bytes) → Exec (World A D) (Unit {0})
  add_by_function snd_shard_id (rejected x) = pure tt
  add_by_function snd_shard_id (parsed (function, arguments)) =
      if ltb (length arguments) 4
      then pure tt
      else if bytes_equal function e.built_in_function_dcdt_nft_transfer
      then add_from_nft_transfer snd_shard_id arguments
      else if bytes_equal function e.built_in_function_multi_dcdt_nft_transfer
      then add_from_multi_transfer snd_shard_id arguments
      else pure tt

  -- SaveNFTMetaDataToSystemAccount
  unfoldable pub save_nft_meta_data_to_system_account :
      Option Transaction → Exec (World A D) (Unit {0})
  save_nft_meta_data_to_system_account tx =
      if not (e.is_flag_enabled save_to_system_account_flag)
      then pure tt
      else if e.is_flag_enabled send_always_flag
      then pure tt
      else elim tx [
        | none ↦ raise nil_transaction_handler
        | some t ↦
            (let snd_shard_id = e.compute_id t.snd_addr in
              let dst_shard_id = e.compute_id t.rcv_addr in
              if snd_shard_id == dst_shard_id
              then pure tt
              else if not (e.self_id == dst_shard_id)
              then pure tt
              else add_by_function snd_shard_id (parse_data t.tx_data))
      ]
