-- ===== src/TokenStorage/Handler.antt =====
-- dcdtDataStorage as the DCDTNFTStorageHandler of the functions on non-fungible tokens.
use k_chain_vm_common_go.Env.{Env, World}
use k_chain_vm_common_go.Interfaces.{SettingsHandler, StorageHandler}
use k_chain_vm_common_go.TokenStorage.{
  get_dcdt_nft_token_on_destination, get_dcdt_nft_token_on_sender,
}
use k_chain_vm_common_go.TokenStorage.Saving.{save_dcdt_nft_token, add_to_liquidity_system_acc}
use k_chain_vm_common_go.TokenStorage.Sent.{was_already_sent}

module _ {A D : Type 0} (e : Env A D) where
  unfoldable pub storage_handler : SettingsHandler (World A D) → StorageHandler (World A D)
  storage_handler settings = record {
    save_dcdt_nft_token = save_dcdt_nft_token e settings;
    get_dcdt_nft_token_on_sender = get_dcdt_nft_token_on_sender e;
    get_dcdt_nft_token_on_destination = get_dcdt_nft_token_on_destination e;
    was_already_sent = was_already_sent e;
    add_to_liquidity_system_acc = add_to_liquidity_system_acc e;
  }
