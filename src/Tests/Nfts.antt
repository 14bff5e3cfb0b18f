-- ===== src/Tests/Nfts.antt =====
-- A token with a nonce created, added to, changed and burned at concrete inputs.
use k_chain_vm_common_go.Common.{
  none, ℕ, ◌+◌, ◌%◌, ◌^◌, ◌≤◌, ◌≡◌, ◌≢◌, refl, ap, ◌⊎◌, true, false, List, [], ◌∷◌, some, Bytes,
  codes, arith,
}
use k_chain_vm_common_go.Common.Int.{pos, ◌+ℤ◌, ◌-ℤ◌}
use k_chain_vm_common_go.Numbers.{u64_mod, set_bytes, to_u64, nat_bytes}
use k_chain_vm_common_go.Errors.{ok}
use k_chain_vm_common_go.Vm.{ContractCallInput, VmOutput, DigitalToken, direct_call}
use k_chain_vm_common_go.Env.{World, dcdt_token_key}
use k_chain_vm_common_go.Logs.{new_output}
use k_chain_vm_common_go.Balance.{is_negative}
use k_chain_vm_common_go.Balance.Held.{held}
use k_chain_vm_common_go.Roles.{get_nonce_key}
use k_chain_vm_common_go.Settings.{settings_handler}
use k_chain_vm_common_go.TokenStorage.Handler.{storage_handler}
use k_chain_vm_common_go.TokenStorage.{compute_dcdt_nft_token_key}
use k_chain_vm_common_go.TokenStorage.Saving.{add_to_liquidity_system_acc}
use k_chain_vm_common_go.TokenStorage.Contract.{Holds, IsTokenStorage}
use k_chain_vm_common_go.TokenStorage.Holding.{storage_handler-IsTokenStorage}
use k_chain_vm_common_go.TokenStorage.Map.{IsTokenMap, storage_handler-IsTokenMap}
use k_chain_vm_common_go.TokenStorage.System.{system_token_at}
use k_chain_vm_common_go.TokenStorage.Liquidity.{Recorded, add_to_liquidity_effect}
use k_chain_vm_common_go.Nft.{NftFunction}
use k_chain_vm_common_go.Nft.Quantity.{process_nft_burn, process_nft_add_quantity}
use k_chain_vm_common_go.Nft.Data.{process_nft_update_attributes}
use k_chain_vm_common_go.Nft.Create.{get_latest_nonce, process_nft_create}
use k_chain_vm_common_go.Nft.Transfer.{NftTransferFunction, process_nft_transfer}
use k_chain_vm_common_go.Nft.Sending.{nft_transfer_out}
use k_chain_vm_common_go.Nft.Effect.{nft_burn_effect, nft_add_quantity_effect}
use k_chain_vm_common_go.Nft.Creation.{Created, nft_create_effect}
use k_chain_vm_common_go.Nft.Change.{SavedChanged, nft_update_attributes_effect}
use k_chain_vm_common_go.Tests.Bank.{
  Account, Db, bank, bank-IsStore, bank-IsMarshaller, bank-IsAdapter,
}
use k_chain_vm_common_go.Tests.Town.{token, town, output_of, transfers}
use k_chain_vm_common_go.Tests.Runs.{runs}

-- A role handler that allows everything.
abbrev nfts : NftFunction (World Account Db)
nfts = record {
  func_gas_cost = 7;
  gas_config = record { store_per_byte = 1; persist_per_byte = 1; data_copy_per_byte = 1 };
  settings = settings_handler bank true;
  roles = record { check_allowed_to_execute = λ w p t action. ok tt };
  storage = storage_handler bank (settings_handler bank true);
}

storage_handler-IsTokenMap_example : IsTokenMap bank nfts.storage
storage_handler-IsTokenMap_example =
    storage_handler-IsTokenMap bank bank-IsStore bank-IsMarshaller (settings_handler bank true)

abbrev nfts_storage : IsTokenStorage bank nfts.storage
nfts_storage =
    storage_handler-IsTokenStorage bank bank-IsStore bank-IsMarshaller (settings_handler bank true)

abbrev by_alice : List Bytes → ContractCallInput
by_alice arguments = record {
  caller_addr = codes "alice";
  arguments = arguments;
  call_value = some (pos 0);
  call_type = direct_call;
  gas_provided = 100;
  gas_locked = 0;
  return_call_after_error = false;
  recipient_addr = codes "alice";
  function = codes "f";
}

abbrev name : Bytes
name = codes "name"

abbrev creation : ContractCallInput
creation = by_alice (token ∷ (3 ∷ []) ∷ name ∷ (2 ∷ []) ∷ (9 ∷ []) ∷ [] ∷ codes "u" ∷ [])

abbrev created : VmOutput
created = output_of (process_nft_create bank nfts 7 (some 0) (some creation) town).0 (new_output 0)

created_ok : (process_nft_create bank nfts 7 (some 0) (some creation) town).0 ≡ ok created
unfolding runs
created_ok = refl

abbrev gallery : World Account Db
gallery = (process_nft_create bank nfts 7 (some 0) (some creation) town).1

abbrev nft_key : ℕ → Bytes
nft_key = compute_dcdt_nft_token_key (dcdt_token_key bank.core token)

abbrev second : Bytes → ℕ
second (x ∷ y ∷ b) = y
second _ = 0

apart : (n : ℕ) → nft_key n ≢ get_nonce_key bank.core token
unfolding runs
apart n h = omega (arith, ap second h)

-- The nonce key of the town is empty, so the first nonce is 1.
nft_create_effect_example :
    (creation.caller_addr ≡ creation.recipient_addr)
    × (nfts.roles.check_allowed_to_execute town (some 0) token bank.dcdt_role_nft_create ≡ ok tt)
    × (set_bytes (3 ∷ []) ≢ 0)
    × (to_u64 (set_bytes (2 ∷ [])) % 2 ^ 32 ≤ bank.max_royalty)
    × ((nonce : ℕ) × (get_latest_nonce bank 0 token town ≡ ok nonce)
        × (created.return_data ≡ nat_bytes ((nonce + 1) % u64_mod) ∷ [])
        × Created bank bank-IsStore bank-IsMarshaller 0 token
            ((nonce + 1) % u64_mod)
            (pos (set_bytes (3 ∷ [])))
            town
            gallery)
nft_create_effect_example =
    nft_create_effect bank bank-IsStore bank-IsMarshaller nfts nfts_storage 7 0 creation token
      (3 ∷ []) name (2 ∷ []) (9 ∷ []) [] (codes "u" ∷ []) town created refl refl apart created_ok

abbrev one : Bytes
one = 1 ∷ []

abbrev two_more : ContractCallInput
two_more = by_alice (token ∷ one ∷ (2 ∷ []) ∷ [])

abbrev added : VmOutput
added =
    output_of (process_nft_add_quantity bank nfts (some 0) (some two_more) gallery).0 (new_output 0)

added_ok : (process_nft_add_quantity bank nfts (some 0) (some two_more) gallery).0 ≡ ok added
unfolding runs
added_ok = refl

abbrev key : Bytes
key = nft_key (to_u64 (set_bytes one))

three_held : held bank gallery 0 key ≡ pos 3
unfolding runs
three_held = refl

five_covered : is_negative (held bank gallery 0 key +ℤ pos (set_bytes (2 ∷ []))) ≡ false
unfolding runs
five_covered = refl

three_covered : is_negative (held bank gallery 0 key) ≡ false
unfolding runs
three_covered = refl

nft_add_quantity_effect_example :
    (two_more.caller_addr ≡ two_more.recipient_addr)
    × (to_u64 (set_bytes one) ≢ 0)
    × (nfts.roles.check_allowed_to_execute gallery (some 0) token bank.dcdt_role_nft_add_quantity
        ≡ ok tt)
    × Holds bank 0 key
        (held bank gallery 0 key +ℤ pos (set_bytes (2 ∷ [])))
        gallery
        (process_nft_add_quantity bank nfts (some 0) (some two_more) gallery).1
    × (added.gas_remaining + 7 ≡ 100)
nft_add_quantity_effect_example =
    nft_add_quantity_effect bank nfts nfts_storage 0 two_more token one (2 ∷ []) [] gallery added
      refl (omega arith) five_covered added_ok

abbrev burned : VmOutput
burned = output_of (process_nft_burn bank nfts (some 0) (some two_more) gallery).0 (new_output 0)

burned_ok : (process_nft_burn bank nfts (some 0) (some two_more) gallery).0 ≡ ok burned
unfolding runs
burned_ok = refl

nft_burn_effect_example :
    let left = held bank gallery 0 key +ℤ (pos 0 -ℤ pos (set_bytes (2 ∷ []))) in
    (two_more.caller_addr ≡ two_more.recipient_addr)
    × (to_u64 (set_bytes one) ≢ 0)
    × ((nfts.settings.is_burn_for_all gallery (dcdt_token_key bank.core token) ≡ true)
        ⊎ (nfts.roles.check_allowed_to_execute gallery (some 0) token bank.dcdt_role_nft_burn
            ≡ ok tt))
    × (is_negative left ≡ false)
    × Holds bank 0 key left gallery (process_nft_burn bank nfts (some 0) (some two_more) gallery).1
    × (burned.gas_remaining + 7 ≡ 100)
nft_burn_effect_example =
    nft_burn_effect bank nfts nfts_storage 0 two_more token one (2 ∷ []) [] gallery burned refl
      (omega arith) burned_ok

abbrev attributes : Bytes
attributes = codes "red"

abbrev update : ContractCallInput
update = by_alice (token ∷ one ∷ attributes ∷ [])

abbrev updated : VmOutput
updated =
    output_of (process_nft_update_attributes bank nfts (some 0) (some update) gallery).0
      (new_output 0)

updated_ok : (process_nft_update_attributes bank nfts (some 0) (some update) gallery).0 ≡ ok updated
unfolding runs
updated_ok = refl

nft_update_attributes_effect_example :
    let w' = (process_nft_update_attributes bank nfts (some 0) (some update) gallery).1 in
    (update.caller_addr ≡ update.recipient_addr)
    × (nfts.roles.check_allowed_to_execute gallery
          (some 0)
          token
          bank.dcdt_role_nft_update_attributes
        ≡ ok tt)
    × (to_u64 (set_bytes one) ≢ 0)
    × SavedChanged bank nfts
        (λ m. record m { attributes = attributes })
        0
        update
        (dcdt_token_key bank.core token)
        (to_u64 (set_bytes one))
        gallery
        w'
    × Holds bank 0 key (held bank gallery 0 key) gallery w'
nft_update_attributes_effect_example =
    nft_update_attributes_effect bank nfts nfts_storage 0 update token one attributes gallery
      updated refl three_covered updated_ok

-- What the system account keeps of the token, with its liquidity.
abbrev recorded : DigitalToken
recorded = record {
  token_type = 1;
  value = pos 3;
  properties = [];
  token_meta_data = some (record {
    nonce = 1;
    name = name;
    creator = codes "alice";
    royalties = 2;
    hash = 9 ∷ [];
    uris = codes "u" ∷ [];
    attributes = [];
  });
  reserved = 1 ∷ [];
}

recorded_found : system_token_at bank gallery (nft_key 1) ≡ ok (some recorded)
unfolding runs
recorded_found = refl

supplied_ok :
    (add_to_liquidity_system_acc bank (dcdt_token_key bank.core token) 1 (pos 2) gallery).0 ≡ ok tt
unfolding runs
supplied_ok = refl

add_to_liquidity_effect_example :
    Recorded bank
      (nft_key 1)
      (pos 2)
      gallery
      (add_to_liquidity_system_acc bank (dcdt_token_key bank.core token) 1 (pos 2) gallery).1
add_to_liquidity_effect_example =
    add_to_liquidity_effect bank bank-IsStore bank-IsMarshaller bank-IsAdapter
      (dcdt_token_key bank.core token) 1 (pos 2) gallery recorded refl refl (λ z. omega (arith, z))
      recorded_found (λ z. cc) refl supplied_ok

abbrev sender : NftTransferFunction (World Account Db)
sender = record { gas_config = nfts.gas_config; storage = nfts.storage; base = transfers }

abbrev carol : Bytes
carol = codes "carol"

abbrev to_carol : ContractCallInput
to_carol = by_alice (token ∷ one ∷ (2 ∷ []) ∷ carol ∷ [])

abbrev sent : VmOutput
sent =
    output_of (process_nft_transfer bank sender 7 (some 0) none (some to_carol) gallery).0
      (new_output 0)

sent_ok : (process_nft_transfer bank sender 7 (some 0) none (some to_carol) gallery).0 ≡ ok sent
unfolding runs
sent_ok = refl

far_away : bank.self_id ≢ bank.compute_id carol
unfolding runs
far_away h = omega (arith, h)

nft_transfer_out_example :
    let left = held bank gallery 0 key -ℤ pos (set_bytes (2 ∷ [])) in
    (carol ≢ to_carol.caller_addr)
    × (to_u64 (set_bytes one) ≢ 0)
    × (is_negative left ≡ false)
    × Holds bank 0 key left gallery
        (process_nft_transfer bank sender 7 (some 0) none (some to_carol) gallery).1
nft_transfer_out_example =
    nft_transfer_out bank sender nfts_storage 7 0 none to_carol token one (2 ∷ []) carol [] gallery
      sent refl refl far_away sent_ok
