-- ===== src/TrieMigrator.antt =====
-- dataTrieMigrator/dataTrieMigrator.go: gas for loading and migrating the leaves of a data trie.
pub mod Gas
use k_chain_vm_common_go.Common.{
  ℕ, Bool, true, false, not, List, [], ◌∷◌, ◌++◌, Bytes, ltb, ◌==◌, if◌then◌else◌,
}
use k_chain_vm_common_go.Numbers.{sub_u64}

-- core.TrieData; a version is a number.
pub record TrieData : Type 0 where
  pub key : Bytes
  pub value : Bytes
  pub version : ℕ

pub record ArgsNewDataTrieMigrator : Type 0 where
  pub gas_provided : ℕ
  pub trie_load_per_node : ℕ
  pub trie_store_per_node : ℕ

pub record DataTrieMigrator : Type 0 where
  pub gas_remaining : ℕ
  pub trie_load_cost : ℕ
  pub trie_migrate_cost : ℕ
  pub leaves_to_be_migrated : List TrieData

unfoldable pub new_data_trie_migrator : ArgsNewDataTrieMigrator → DataTrieMigrator
new_data_trie_migrator args = record {
  gas_remaining = args.gas_provided;
  trie_load_cost = args.trie_load_per_node;
  trie_migrate_cost = args.trie_store_per_node;
  leaves_to_be_migrated = [];
}

unfoldable pub consume_storage_load_gas : DataTrieMigrator → Bool × DataTrieMigrator
unfolding sub_u64
consume_storage_load_gas dtm =
    if ltb dtm.gas_remaining dtm.trie_load_cost
    then (false, dtm)
    else (let gas_remaining = sub_u64 dtm.gas_remaining dtm.trie_load_cost in
        (ltb dtm.trie_load_cost gas_remaining, record dtm { gas_remaining = gas_remaining }))

-- core.NotSpecified and core.AutoBalanceEnabled are parameters.
module _ (not_specified auto_balance_enabled : ℕ) where
  unfoldable pub prepare_data_for_migration_to_auto_balance :
      TrieData → DataTrieMigrator → DataTrieMigrator
  unfolding sub_u64
  prepare_data_for_migration_to_auto_balance leaf_data dtm =
      if not (leaf_data.version == not_specified) then dtm else record dtm {
        gas_remaining = sub_u64 dtm.gas_remaining dtm.trie_migrate_cost;
        leaves_to_be_migrated = dtm.leaves_to_be_migrated ++ leaf_data ∷ [];
      }

  -- AddLeafToMigrationQueue, whose error is always nil.
  unfoldable pub add_leaf_to_migration_queue :
      TrieData → ℕ → DataTrieMigrator → Bool × DataTrieMigrator
  unfolding prepare_data_for_migration_to_auto_balance
  add_leaf_to_migration_queue leaf_data new_leaf_version dtm =
      if ltb dtm.gas_remaining dtm.trie_migrate_cost
      then (false, dtm)
      else (let dtm' =
            (if new_leaf_version == auto_balance_enabled
              then prepare_data_for_migration_to_auto_balance leaf_data dtm
              else dtm) in
          (ltb dtm'.trie_migrate_cost dtm'.gas_remaining, dtm'))
