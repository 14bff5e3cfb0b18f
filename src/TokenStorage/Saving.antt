-- ===== src/TokenStorage/Saving.antt =====
-- The operations of dcdtDataStorage.go that write: the liquidity, the metadata and the quantity.
use k_chain_vm_common_go.Common.{
  ℕ, Bool, true, false, not, ◌&&◌, ◌||◌, [], ◌∷◌, Option, none, some, Bytes, ◌==◌, if◌then◌else◌,
  length, replicate,
}
use k_chain_vm_common_go.Common.Int.{ℤ, pos, ◌+ℤ◌}
use k_chain_vm_common_go.Errors.{
  HostError, Result, ok, err, host, nil_dcdt_data, invalid_liquidity_for_dcdt, nil_user_account,
  is_get_node_from_db_error,
}
use k_chain_vm_common_go.Exec.{Exec, pure, raise, lift, reads, ◌>>=◌, ◌>>◌}
use k_chain_vm_common_go.Vm.{DigitalToken}
use k_chain_vm_common_go.Env.{
  Env, World, save_to_system_account_flag, send_always_flag, fix_old_token_liquidity_flag,
  always_save_token_meta_data_flag,
}
use k_chain_vm_common_go.Interfaces.{SettingsHandler}
use k_chain_vm_common_go.Balance.{is_zero, is_negative, retrieved, save_at}
use k_chain_vm_common_go.TokenStorage.{
  compute_dcdt_nft_token_key, empty_token, default_query_options, mark_shard,
  get_system_account_with_options, get_dcdt_digital_token_data_from_system_account,
  save_and_persist, marshal_and_save_data, check_frozen_pause_properties,
}

module _ {A D : Type 0} (e : Env A D) where
  -- The liquidity with the value added, saved.
  abbrev pub change_liquidity : ℤ → A → Bytes → DigitalToken → Exec (World A D) (Unit {0})
  change_liquidity transfer_value system_acc key dcdt_data =
      let value = dcdt_data.value +ℤ transfer_value in
      if is_negative value
      then raise invalid_liquidity_for_dcdt
      else if is_zero value
      then (save_and_persist e system_acc key [] >>= λ _. pure tt)
      else (marshal_and_save_data e system_acc (record dcdt_data { value = value }) key >>= λ _.
          pure tt)

  abbrev pub add_to_found : ℤ → A → Bytes → Option DigitalToken → Exec (World A D) (Unit {0})
  add_to_found transfer_value system_acc key none = raise nil_dcdt_data
  add_to_found transfer_value system_acc key (some dcdt_data) =
      if length dcdt_data.reserved == 0
      then pure tt
      else if e.is_flag_enabled fix_old_token_liquidity_flag
          && is_zero dcdt_data.value
          && is_negative transfer_value
      then (marshal_and_save_data e system_acc (record dcdt_data { reserved = [] }) key >>= λ _.
          pure tt)
      else change_liquidity transfer_value system_acc key dcdt_data

  -- AddToLiquiditySystemAcc
  unfoldable pub add_to_liquidity_system_acc : Bytes → ℕ → ℤ → Exec (World A D) (Unit {0})
  add_to_liquidity_system_acc dcdt_token_key nonce transfer_value =
      if not (e.is_flag_enabled save_to_system_account_flag)
        || not (e.is_flag_enabled send_always_flag)
        || (nonce == 0)
      then pure tt
      else (let key = compute_dcdt_nft_token_key dcdt_token_key nonce in
          reads (get_dcdt_digital_token_data_from_system_account e key default_query_options)
          >>= λ found. add_to_found transfer_value found.1 key found.0)

  -- saveMetadataIfRequired; it gives the account object after it.
  unfoldable pub save_metadata_if_required : Bytes → A → Bytes → DigitalToken → Exec (World A D) A
  save_metadata_if_required key system_acc current_save_data dcdt_data =
      if not (e.is_flag_enabled always_save_token_meta_data_flag)
      then pure system_acc
      else if not (e.is_flag_enabled send_always_flag)
      then pure system_acc
      else if length current_save_data == 0
      then pure system_acc
      else (lift (e.unmarshal_token empty_token current_save_data) >>= λ on_system_acc.
          if not (length on_system_acc.reserved == 0)
          then pure system_acc
          else marshal_and_save_data e system_acc
              (record on_system_acc { token_meta_data = dcdt_data.token_meta_data }) key)

  -- Whether the data of a user's account, if any, carries metadata, as old tokens do.
  abbrev pub carries_meta_data : Bytes → Result Bool
  carries_meta_data [] = ok false
  carries_meta_data (b ∷ bs) = elim (e.unmarshal_token empty_token (b ∷ bs)) [
    | err x ↦ err x
    | ok t ↦ ok (elim t.token_meta_data [ none ↦ false | some m ↦ true ])
  ]

  -- setReservedToNilForOldToken; it gives the token of the system account after it.
  unfoldable pub set_reserved_to_nil_for_old_token :
      DigitalToken → Option ℕ → Bytes → World A D → Result DigitalToken
  set_reserved_to_nil_for_old_token on_system_acc user_acc key w =
      if not (e.is_flag_enabled fix_old_token_liquidity_flag)
      then ok on_system_acc
      else elim user_acc [
        | none ↦ err nil_user_account
        | some p ↦ elim (retrieved (e.retrieve_value (w.accounts p) key)) [
          | err x ↦ err x
          | ok b ↦ elim (carries_meta_data b) [
            | err x ↦ err x
            | ok old ↦ ok (if old then record on_system_acc { reserved = [] } else on_system_acc)
          ]
        ]
      ]

  -- The marks of the shards that have the metadata, where it is not always sent.
  abbrev pub marked : ℕ → Bytes → Result Bytes
  marked shard properties =
      if shard == e.metachain_shard_id then ok properties else mark_shard shard properties

  -- The token that saveDCDTMetaDataToSystemAccount saves.
  unfoldable pub token_on_system_account :
      Option ℕ → ℕ → Bytes → Bytes → DigitalToken → World A D → Result DigitalToken
  token_on_system_account user_acc sender_shard_id key current_save_data dcdt_data w =
      let fresh : DigitalToken = record {
        token_type = dcdt_data.token_type;
        value = pos 0;
        properties = replicate e.number_of_shards 0;
        token_meta_data = dcdt_data.token_meta_data;
        reserved = [];
      } in
      if e.is_flag_enabled send_always_flag
      then (if length current_save_data == 0
          then set_reserved_to_nil_for_old_token
              (record fresh { properties = []; reserved = 1 ∷ [] }) user_acc key w
          else ok fresh)
      else elim (marked e.self_id fresh.properties) [
        | err x ↦ err x
        | ok here ↦ elim (marked sender_shard_id here) [
          | err x ↦ err x
          | ok both ↦ ok (record fresh { properties = both })
        ]
      ]

  -- currentSaveData, with the error that only a missing node is.
  abbrev pub current_data_of : Bytes × Option HostError → Result Bytes
  current_data_of (b, some x) = if is_get_node_from_db_error (some x) then err (host x) else ok b
  current_data_of (b, none) = ok b

  -- The last steps of saveDCDTMetaDataToSystemAccount: a token of the system account is written
  -- anew, unless there is one that need not be updated.
  abbrev pub save_new_data :
      Option ℕ → ℕ → Bytes → DigitalToken → Bool → Bytes → A → Exec (World A D) (Unit {0})
  save_new_data user_acc sender_shard_id key dcdt_data must current_save_data system_acc =
      if not must && not (length current_save_data == 0)
      then pure tt
      else (reads (token_on_system_account user_acc sender_shard_id key current_save_data dcdt_data)
          >>= λ on_system_acc.
              marshal_and_save_data e system_acc on_system_acc key >>= λ _. pure tt)

  -- saveDCDTMetaDataToSystemAccount, for a token with metadata.
  abbrev pub save_meta_data :
      Option ℕ → ℕ → Bytes → DigitalToken → Bool → Exec (World A D) (Unit {0})
  save_meta_data user_acc sender_shard_id key dcdt_data must = do
    system_acc ← reads (get_system_account_with_options e default_query_options)
    current_save_data ← lift (current_data_of (e.retrieve_value system_acc key))
    system_acc' ← save_metadata_if_required key system_acc current_save_data dcdt_data
    save_new_data user_acc sender_shard_id key dcdt_data must current_save_data system_acc'

  -- saveDCDTMetaDataToSystemAccount
  unfoldable pub save_dcdt_meta_data_to_system_account :
      Option ℕ → ℕ → Bytes → ℕ → DigitalToken → Bool → Exec (World A D) (Unit {0})
  save_dcdt_meta_data_to_system_account user_acc sender_shard_id key nonce dcdt_data must =
      if nonce == 0 then pure tt else elim dcdt_data.token_meta_data [
        | none ↦ pure tt
        | some m ↦ save_meta_data user_acc sender_shard_id key dcdt_data must
      ]

  -- What SaveDCDTNFTToken leaves on the user's account; it gives the bytes that were saved.
  abbrev pub save_on_account : ℕ → Bytes → DigitalToken → Exec (World A D) Bytes
  save_on_account acnt key dcdt_data =
      if is_zero dcdt_data.value || is_negative dcdt_data.value
      then (save_at e acnt key [] >>= λ _. pure [])
      else (lift (
            e.marshal_token (
              if not (e.is_flag_enabled save_to_system_account_flag)
              then dcdt_data
              else record dcdt_data { token_meta_data = none; reserved = [] }))
          >>= λ marshaled_data. save_at e acnt key marshaled_data >>= λ _. pure marshaled_data)

  -- SaveDCDTNFTToken
  unfoldable pub save_dcdt_nft_token :
      SettingsHandler (World A D)
      → Bytes
      → ℕ
      → Bytes
      → ℕ
      → DigitalToken
      → Bool
      → Bool
      → Exec (World A D) Bytes
  save_dcdt_nft_token settings sender_address acnt dcdt_token_key nonce dcdt_data must ret = do
    check_frozen_pause_properties e settings acnt dcdt_token_key nonce dcdt_data ret
    let key = compute_dcdt_nft_token_key dcdt_token_key nonce
    (if e.is_flag_enabled save_to_system_account_flag
        then save_dcdt_meta_data_to_system_account (some acnt) (e.compute_id sender_address) key
            nonce dcdt_data must
        else pure tt)
    save_on_account acnt key dcdt_data
