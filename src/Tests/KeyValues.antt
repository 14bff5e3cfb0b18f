-- ===== src/Tests/KeyValues.antt =====
-- Keys and values saved at concrete inputs.
use k_chain_vm_common_go.Common.{◌≡◌, refl, List, [], ◌∷◌, ◌++◌, some, Bytes, codes}
use k_chain_vm_common_go.Errors.{ok, err, operation_not_permitted}
use k_chain_vm_common_go.Vm.{ContractCallInput, VmOutput}
use k_chain_vm_common_go.Logs.{new_output}
use k_chain_vm_common_go.KeyValue.{SaveKeyValueStorage, process_save_key_value}
use k_chain_vm_common_go.KeyValue.Effect.{
  read_at, value_after, protected_keys_unchanged, save_key_value_effect,
}
use k_chain_vm_common_go.Tests.Bank.{bank, bank-IsStore}
use k_chain_vm_common_go.Tests.Town.{town, by_alice, output_of}
use k_chain_vm_common_go.Tests.Runs.{runs}

abbrev saver : SaveKeyValueStorage
saver = record {
  gas_config = record { store_per_byte = 2; persist_per_byte = 1; data_copy_per_byte = 1 };
  func_gas_cost = 10;
}

-- The key `k` twice, and the key `m`.
abbrev pairs : List Bytes
pairs = codes "k" ∷ codes "v" ∷ codes "m" ∷ codes "u" ∷ codes "k" ∷ codes "w" ∷ []

abbrev save_pairs : ContractCallInput
save_pairs = record by_alice { arguments = pairs }

abbrev saved : VmOutput
saved =
    output_of (process_save_key_value bank saver (some 0) (some save_pairs) town).0 (new_output 0)

saved_ok : (process_save_key_value bank saver (some 0) (some save_pairs) town).0 ≡ ok saved
unfolding runs
saved_ok = refl

save_key_value_effect_example :
    let w' = (process_save_key_value bank saver (some 0) (some save_pairs) town).1 in
    (save_pairs.caller_addr ≡ save_pairs.recipient_addr)
    × (read_at bank w' 0 (codes "k")
        ≡ value_after (codes "k") pairs (read_at bank town 0 (codes "k")))
save_key_value_effect_example =
    save_key_value_effect bank saver bank-IsStore 0 save_pairs (codes "k") town saved saved_ok

last_value : value_after (codes "k") pairs [] ≡ codes "w"
unfolding runs
last_value = refl

-- A pair that may be saved, and a protected one.
abbrev save_protected : ContractCallInput
save_protected = record by_alice {
  arguments = codes "k" ∷ codes "v" ∷ codes "NdcdtT" ∷ codes "9" ∷ [];
}

protected_keys_unchanged_example :
    bank.retrieve_value
      ((process_save_key_value bank saver (some 0) (some save_protected) town).1.accounts 0)
      (bank.protected_key_prefix ++ codes "dcdtT")
    ≡ bank.retrieve_value (town.accounts 0) (bank.protected_key_prefix ++ codes "dcdtT")
protected_keys_unchanged_example =
    protected_keys_unchanged bank saver bank-IsStore (some 0) (some save_protected) 0
      (codes "dcdtT") town

protected_refused :
    (process_save_key_value bank saver (some 0) (some save_protected) town).0
    ≡ err operation_not_permitted
unfolding runs
protected_refused = refl
