-- ===== src/Tests/Migrations.antt =====
-- A migration of a trie at concrete inputs.
use k_chain_vm_common_go.Common.{List, [], ◌∷◌, codes, arith}
use k_chain_vm_common_go.TrieMigrator.{TrieData, ArgsNewDataTrieMigrator, new_data_trie_migrator}
use k_chain_vm_common_go.TrieMigrator.Gas.{
  Call, load, leaf, after_calls, paid_loads, Accounted, after_calls-Accounted,
}

abbrev args : ArgsNewDataTrieMigrator
args = record { gas_provided = 100; trie_load_per_node = 20; trie_store_per_node = 50 }

abbrev old_leaf : TrieData
old_leaf = record { key = codes "k"; value = codes "v"; version = 0 }

abbrev calls : List Call
calls = load ∷ leaf old_leaf 1 ∷ load ∷ leaf old_leaf 1 ∷ []

after_calls-Accounted_example :
    Accounted 0 1 args
      (paid_loads 0 1 calls (new_data_trie_migrator args))
      (after_calls 0 1 calls (new_data_trie_migrator args))
after_calls-Accounted_example = after_calls-Accounted 0 1 args calls (omega arith)
