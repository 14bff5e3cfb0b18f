-- ===== src/Balance.antt =====
-- The balance of a fungible token on an account: the helpers of builtInFunctions/dcdtTransfer.go
-- that read it, change it, write it and test whether it is frozen or paused.
pub mod Storage
pub mod Update
pub mod Held
use k_chain_vm_common_go.Common.{
  ℕ, ◌+◌, ◌≡◌, refl, Bool, true, false, not, ◌&&◌, List, [], ◌∷◌, Option, none, some, Bytes,
  bytes_equal, ◌==◌, if◌then◌else◌,
}
use k_chain_vm_common_go.Common.Int.{ℤ, pos, negsuc, ◌+ℤ◌}
use k_chain_vm_common_go.Errors.{
  HostError, get_node_from_db_error, other_error, Error, Result, ok, err, host,
  only_fungible_tokens_have_balance_transfer, insufficient_funds, dcdt_is_frozen_for_account,
  dcdt_token_is_paused,
}
use k_chain_vm_common_go.Exec.{Exec, pure, raise, gets, lift, reads, fail_if, ◌>>=◌, ◌>>◌}
use k_chain_vm_common_go.Vm.{DigitalToken}
use k_chain_vm_common_go.Env.{Env, World, set_account}
use k_chain_vm_common_go.Interfaces.{SettingsHandler}
use k_chain_vm_common_go.Metadata.{user_metadata_from_bytes}

-- value.Cmp(zero) == 0
abbrev pub is_zero : ℤ → Bool
is_zero (pos n) = n == 0
is_zero (negsuc n) = false

-- value.Cmp(zero) < 0
abbrev pub is_negative : ℤ → Bool
is_negative (pos n) = false
is_negative (negsuc n) = true

-- What a reader of the data trie goes on with: a missing node is an error, any other error reads as
-- no data.
abbrev pub retrieved : Bytes × Option HostError → Result Bytes
retrieved (b, none) = ok b
retrieved (b, some (get_node_from_db_error n)) = err (host (get_node_from_db_error n))
retrieved (b, some (other_error n)) = ok []

-- SaveKeyValue on the account behind a reference.
abbrev pub save_at : {A D : Type 0} → Env A D → ℕ → Bytes → Bytes → Exec (World A D) (Unit {0})
save_at e p key v w =
    let (failure, a) = e.save_key_value (w.accounts p) key v in
    (elim failure [ none ↦ ok tt | some x ↦ err (host x) ], set_account p a w)

unfoldable pub are_properties_empty : Bytes → Bool
are_properties_empty [] = true
are_properties_empty (b ∷ bs) = (b == 0) && are_properties_empty bs

module _ {A D : Type 0} (e : Env A D) where
  -- &dcdt.DCDigitalToken{Value: big.NewInt(0), Type: uint32(core.Fungible)}
  abbrev pub new_token : DigitalToken
  new_token = record {
    token_type = e.fungible;
    value = pos 0;
    properties = [];
    token_meta_data = none;
    reserved = [];
  }

  abbrev pub unmarshal_or_new : Bytes → Result DigitalToken
  unmarshal_or_new [] = ok new_token
  unmarshal_or_new (b ∷ bs) = e.unmarshal_token new_token (b ∷ bs)

  -- getDCDTDataFromKey
  unfoldable pub get_dcdt_data_from_key : A → Bytes → Result DigitalToken
  get_dcdt_data_from_key acnt key = elim (retrieved (e.retrieve_value acnt key)) [
    | ok b ↦ unmarshal_or_new b
    | err x ↦ err x
  ]

  -- The last steps of saveDCDTData: marshal, and save what came out.
  abbrev pub save_marshaled : ℕ → Bytes → Result Bytes → Exec (World A D) (Unit {0})
  save_marshaled p key marshaled = lift marshaled >>= λ b. save_at e p key b

  -- saveDCDTData
  unfoldable pub save_dcdt_data : ℕ → DigitalToken → Bytes → Exec (World A D) (Unit {0})
  unfolding are_properties_empty set_account
  save_dcdt_data p dcdt_data key =
      if is_zero dcdt_data.value && are_properties_empty dcdt_data.properties
      then save_at e p key []
      else save_marshaled p key (e.marshal_token dcdt_data)

  -- checkFrozeAndPause, with the settings' answer in the state at hand.
  unfoldable pub check_froze_and_pause :
      Bytes
      → Bytes
      → DigitalToken
      → SettingsHandler (World A D)
      → Bool
      → World A D
      → Result (Unit {0})
  check_froze_and_pause sender_addr key dcdt_data settings is_return_with_error w =
      if is_return_with_error
      then ok tt
      else if bytes_equal sender_addr e.dcdt_sc_address
      then ok tt
      else if (user_metadata_from_bytes dcdt_data.properties).frozen
      then err dcdt_is_frozen_for_account
      else if settings.is_paused w key
      then err dcdt_token_is_paused
      else ok tt

  -- addToDCDTBalance
  unfoldable pub add_to_dcdt_balance :
      ℕ → Bytes → ℤ → SettingsHandler (World A D) → Bool → Exec (World A D) (Unit {0})
  add_to_dcdt_balance p key value settings is_return_with_error = do
    user_acnt ← gets (λ w. w.accounts p)
    dcdt_data ← lift (get_dcdt_data_from_key user_acnt key)
    fail_if (not (dcdt_data.token_type == e.fungible)) only_fungible_tokens_have_balance_transfer
    reads (
        check_froze_and_pause (e.address_bytes user_acnt) key dcdt_data settings
          is_return_with_error)
    let new_value = dcdt_data.value +ℤ value
    fail_if (is_negative new_value) insufficient_funds
    save_dcdt_data p (record dcdt_data { value = new_value }) key
