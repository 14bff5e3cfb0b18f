-- ===== src/TokenStorage.antt =====
-- builtInFunctions/dcdtDataStorage.go: tokens with a nonce. The quantity is on the user's account,
-- the metadata and the liquidity on the system account of the shard.
pub mod Saving
pub mod Sent
pub mod Handler
pub mod System
pub mod Accounts
pub mod SentAccounts
pub mod Liquidity
pub mod Contract
pub mod Holding
pub mod Reading
pub mod Map
use k_chain_vm_common_go.Common.{
  ℕ, ◌+◌, Bool, true, false, not, ◌&&◌, ◌||◌, List, [], ◌∷◌, ◌++◌, Option, none, some, Bytes, ◌==◌,
  if◌then◌else◌, length, set, replicate, ltb,
}
use k_chain_vm_common_go.Common.Int.{ℤ, pos, ◌+ℤ◌}
use k_chain_vm_common_go.Numbers.{nat_bytes}
use k_chain_vm_common_go.Errors.{
  HostError, Error, Result, ok, err, host, new_nft_data_on_sender_address, nil_dcdt_data,
  invalid_liquidity_for_dcdt, nil_user_account, dcdt_is_frozen_for_account, wrong_type_assertion,
  runtime_panic, is_get_node_from_db_error,
}
use k_chain_vm_common_go.Exec.{Exec, pure, raise, gets, lift, reads, fail_if, ◌>>=◌, ◌>>◌}
use k_chain_vm_common_go.Vm.{DigitalToken, MetaData}
use k_chain_vm_common_go.Env.{
  Env, World, Loaded, failed, user_account, other_account, Flag, save_to_system_account_flag,
  check_frozen_collection_flag, send_always_flag, fix_old_token_liquidity_flag,
  always_save_token_meta_data_flag,
}
use k_chain_vm_common_go.Interfaces.{SettingsHandler, StorageHandler}
use k_chain_vm_common_go.Address.{system_account_address}
use k_chain_vm_common_go.Metadata.{user_metadata_from_bytes}
use k_chain_vm_common_go.Balance.{
  is_zero, is_negative, retrieved, save_at, new_token, check_froze_and_pause,
}

abbrev pub exists_on_shard : ℕ
exists_on_shard = 1

-- computeDCDTNFTTokenKey
unfoldable pub compute_dcdt_nft_token_key : Bytes → ℕ → Bytes
compute_dcdt_nft_token_key dcdt_token_key nonce = dcdt_token_key ++ nat_bytes nonce

-- &dcdt.DCDigitalToken{}, whose value, nil until it is unmarshalled, is 0 here.
abbrev pub empty_token : DigitalToken
empty_token = record {
  token_type = 0;
  value = pos 0;
  properties = [];
  token_meta_data = none;
  reserved = [];
}

pub record QueryOptions (A : Type 0) : Type 0 where
  pub is_custom_system_account_set : Bool
  pub custom_system_account : Option A

abbrev pub default_query_options : {A : Type 0} → QueryOptions A
default_query_options = record {
  is_custom_system_account_set = false;
  custom_system_account = none;
}

-- `properties[i] = existsOnShard`; out of range Go panics.
abbrev pub mark_shard : ℕ → Bytes → Result Bytes
mark_shard i properties =
    if ltb i (length properties) then ok (set properties i exists_on_shard) else err runtime_panic

module _ {A D : Type 0} (e : Env A D) where
  -- loadSystemAccount
  unfoldable pub load_system_account : World A D → Result A
  load_system_account w = elim (e.load_account w.db system_account_address) [
    | failed x ↦ err (host x)
    | user_account a ↦ ok a
    | other_account ↦ err wrong_type_assertion
  ]

  -- getSystemAccount
  unfoldable pub get_system_account_with_options : QueryOptions A → World A D → Result A
  get_system_account_with_options options w =
      let loaded = load_system_account w in
      if options.is_custom_system_account_set
      then elim options.custom_system_account [ some a ↦ ok a | none ↦ loaded ]
      else loaded

  abbrev pub unmarshal_found : Bytes → Result (Option DigitalToken)
  unmarshal_found [] = ok none
  unmarshal_found (b ∷ bs) = elim (e.unmarshal_token empty_token (b ∷ bs)) [
    | ok t ↦ ok (some t)
    | err x ↦ err x
  ]

  -- The token that is stored under a key of the system account.
  abbrev pub system_token : A → Bytes → Result (Option DigitalToken)
  system_token system_acc token_key = elim (retrieved (e.retrieve_value system_acc token_key)) [
    | ok b ↦ unmarshal_found b
    | err x ↦ err x
  ]

  -- getDCDTDigitalTokenDataFromSystemAccount
  unfoldable pub get_dcdt_digital_token_data_from_system_account :
      Bytes → QueryOptions A → World A D → Result (Option DigitalToken × A)
  get_dcdt_digital_token_data_from_system_account token_key options w =
      elim (get_system_account_with_options options w) [
        | err x ↦ err x
        | ok system_acc ↦ elim (system_token system_acc token_key) [
          | ok found ↦ ok (found, system_acc)
          | err x ↦ err x
        ]
      ]

  -- getDCDTMetaDataFromSystemAccount
  unfoldable pub get_dcdt_meta_data_from_system_account :
      Bytes → QueryOptions A → World A D → Result (Option MetaData)
  get_dcdt_meta_data_from_system_account token_key options w =
      elim (get_dcdt_digital_token_data_from_system_account token_key options w) [
        | err x ↦ err x
        | ok (none, system_acc) ↦ ok none
        | ok (some dcdt_data, system_acc) ↦ ok dcdt_data.token_meta_data
      ]

  -- The metadata of the system account, where there is one, on a token.
  abbrev pub with_meta_data : DigitalToken → Result (Option MetaData) → Result (DigitalToken × Bool)
  with_meta_data dcdt_data (err x) = err x
  with_meta_data dcdt_data (ok none) = ok (dcdt_data, false)
  with_meta_data dcdt_data (ok (some m)) = ok (record dcdt_data { token_meta_data = some m }, false)

  -- What was read of the user's account, completed; the Boolean says that the token is new.
  abbrev pub completed :
      ℕ → QueryOptions A → Bytes → World A D → Bytes → Result (DigitalToken × Bool)
  completed nonce options key w [] = ok (new_token e, true)
  completed nonce options key w (b ∷ bs) = elim (e.unmarshal_token (new_token e) (b ∷ bs)) [
    | err x ↦ err x
    | ok dcdt_data ↦
        if not (e.is_flag_enabled save_to_system_account_flag) || (nonce == 0)
        then ok (dcdt_data, false)
        else with_meta_data dcdt_data (get_dcdt_meta_data_from_system_account key options w)
  ]

  -- getDCDTNFTTokenOnDestinationWithAccountsAdapterOptions
  unfoldable pub get_with_options :
      ℕ → Bytes → ℕ → QueryOptions A → World A D → Result (DigitalToken × Bool)
  get_with_options acnt dcdt_token_key nonce options w =
      let key = compute_dcdt_nft_token_key dcdt_token_key nonce in
      elim (retrieved (e.retrieve_value (w.accounts acnt) key)) [
        | err x ↦ err x
        | ok b ↦ completed nonce options key w b
      ]

  -- GetDCDTNFTTokenOnDestination
  unfoldable pub get_dcdt_nft_token_on_destination :
      World A D → ℕ → Bytes → ℕ → Result (DigitalToken × Bool)
  get_dcdt_nft_token_on_destination w acnt dcdt_token_key nonce =
      get_with_options acnt dcdt_token_key nonce default_query_options w

  -- GetDCDTNFTTokenOnDestinationWithCustomSystemAccount
  unfoldable pub get_with_custom_system_account :
      World A D → ℕ → Bytes → ℕ → Option A → Result (DigitalToken × Bool)
  get_with_custom_system_account w acnt dcdt_token_key nonce none = err nil_user_account
  get_with_custom_system_account w acnt dcdt_token_key nonce (some a) =
      get_with_options acnt dcdt_token_key nonce
        (record { is_custom_system_account_set = true; custom_system_account = some a }) w

  -- GetDCDTNFTTokenOnSender
  unfoldable pub get_dcdt_nft_token_on_sender : World A D → ℕ → Bytes → ℕ → Result DigitalToken
  get_dcdt_nft_token_on_sender w acnt dcdt_token_key nonce =
      elim (get_dcdt_nft_token_on_destination w acnt dcdt_token_key nonce) [
        | err x ↦ err x
        | ok (dcdt_data, true) ↦ err new_nft_data_on_sender_address
        | ok (dcdt_data, false) ↦ ok dcdt_data
      ]

  -- SaveKeyValue and SaveAccount of a loaded account; it gives the object after the write.
  abbrev pub save_and_persist : A → Bytes → Bytes → Exec (World A D) A
  save_and_persist a key v w =
      let (failure, a') = e.save_key_value a key v in
      elim failure [
        | some x ↦ (err (host x), w)
        | none ↦
            (let (refused, d) = e.save_account w.db a' in
              (elim refused [ none ↦ ok a' | some x ↦ err (host x) ], record w { db = d }))
      ]

  -- marshalAndSaveData
  unfoldable pub marshal_and_save_data : A → DigitalToken → Bytes → Exec (World A D) A
  marshal_and_save_data system_acc dcdt_data key = do
    marshaled_data ← lift (e.marshal_token dcdt_data)
    save_and_persist system_acc key marshaled_data

  -- The frozen flag of a token that was read, if there is one.
  abbrev pub refuse_frozen : Bytes → Result (Unit {0})
  refuse_frozen [] = ok tt
  refuse_frozen (b ∷ bs) = elim (e.unmarshal_token (new_token e) (b ∷ bs)) [
    | err x ↦ err x
    | ok dcdt_data ↦
        if (user_metadata_from_bytes dcdt_data.properties).frozen
        then err dcdt_is_frozen_for_account
        else ok tt
  ]

  -- checkCollectionIsFrozenForAccount
  unfoldable pub check_collection_is_frozen_for_account :
      ℕ → Bytes → ℕ → Bool → World A D → Result (Unit {0})
  check_collection_is_frozen_for_account acnt dcdt_token_key nonce is_return_with_error w =
      if not (e.is_flag_enabled check_frozen_collection_flag)
      then ok tt
      else if (nonce == 0) || is_return_with_error
      then ok tt
      else elim (retrieved (e.retrieve_value (w.accounts acnt) dcdt_token_key)) [
        | err x ↦ err x
        | ok b ↦ refuse_frozen b
      ]

  -- checkFrozenPauseProperties
  unfoldable pub check_frozen_pause_properties :
      SettingsHandler (World A D)
      → ℕ
      → Bytes
      → ℕ
      → DigitalToken
      → Bool
      → Exec (World A D) (Unit {0})
  check_frozen_pause_properties settings acnt dcdt_token_key nonce dcdt_data is_return_with_error =
      do
        address ← gets (λ w. e.address_bytes (w.accounts acnt))
        reads
            (check_froze_and_pause e address dcdt_token_key dcdt_data settings is_return_with_error)
        reads (
            check_froze_and_pause e address (compute_dcdt_nft_token_key dcdt_token_key nonce)
              dcdt_data settings is_return_with_error)
        reads
            (check_collection_is_frozen_for_account acnt dcdt_token_key nonce is_return_with_error)
