-- ===== src/TrieMigrator/Gas.antt =====
-- Where the gas of a migration goes, whatever the order of the calls.
use mathlib.Core.Path.{subst}
use k_chain_vm_common_go.Common.{
  ℕ, suc, ◌+◌, ◌*◌, ◌≤◌, ◌<◌, ◌≡◌, refl, sym, inl, inr, false, List, [], ◌∷◌, ◌++◌, arith, ltb,
  ◌==◌, ==_iff, if◌then◌else◌, length, length-append, All, All-append, Bool-cases,
}
use k_chain_vm_common_go.Numbers.{sub_u64, u64_mod}
use k_chain_vm_common_go.Numbers.RoundTrip.{sub_u64-eq}
use k_chain_vm_common_go.TrieMigrator.{
  TrieData, ArgsNewDataTrieMigrator, DataTrieMigrator, new_data_trie_migrator,
  consume_storage_load_gas, prepare_data_for_migration_to_auto_balance, add_leaf_to_migration_queue,
}

-- A call of the migrator.
pub data Call : Type 0 where
  load : Call
  leaf : TrieData → ℕ → Call

module _ (not_specified auto_balance_enabled : ℕ) where
  abbrev pub after_call : Call → DataTrieMigrator → DataTrieMigrator
  after_call load dtm = (consume_storage_load_gas dtm).1
  after_call (leaf data_leaf version) dtm =
      (add_leaf_to_migration_queue not_specified auto_balance_enabled data_leaf version dtm).1

  -- The migrator after a sequence of calls.
  abbrev pub after_calls : List Call → DataTrieMigrator → DataTrieMigrator
  after_calls [] dtm = dtm
  after_calls (c ∷ cs) dtm = after_calls cs (after_call c dtm)

  -- The loads that a call, and a sequence of calls, has paid for.
  abbrev pub paid : Call → DataTrieMigrator → ℕ
  paid load dtm = if ltb dtm.gas_remaining dtm.trie_load_cost then 0 else 1
  paid (leaf data_leaf version) dtm = 0

  abbrev pub paid_loads : List Call → DataTrieMigrator → ℕ
  paid_loads [] dtm = 0
  paid_loads (c ∷ cs) dtm = paid c dtm + paid_loads cs (after_call c dtm)

  -- The costs are as given, and the gas provided is what remains, `loads` loads and one migration for
  -- every queued leaf, all of which had no version.
  pub record Accounted (args : ArgsNewDataTrieMigrator) (loads : ℕ) (dtm : DataTrieMigrator)
      : Type 0 where
    pub balance :
        dtm.gas_remaining
          + loads * args.trie_load_per_node
          + length dtm.leaves_to_be_migrated * args.trie_store_per_node
        ≡ args.gas_provided
    pub load_cost : dtm.trie_load_cost ≡ args.trie_load_per_node
    pub migrate_cost : dtm.trie_migrate_cost ≡ args.trie_store_per_node
    pub unversioned : All (λ t. t.version ≡ not_specified) dtm.leaves_to_be_migrated

  add_assoc : (a b c : ℕ) → (a + b) + c ≡ a + (b + c)
  add_assoc a b c = omega arith

  add_zero : (n : ℕ) → n + 0 ≡ n
  add_zero n = omega arith

  zero_add : (n : ℕ) → 0 + n ≡ n
  zero_add n = omega arith

  add_one : (n : ℕ) → n + 1 ≡ suc n
  add_one n = omega arith

  more : (k c : ℕ) → suc k * c ≡ k * c + c
  more k c = omega arith

  le_of_not_ltb : (a b : ℕ) → ltb a b ≡ false → b ≤ a
  le_of_not_ltb a b h = ground arith

  -- One more payment of `cost` out of `gas`.
  spent :
      (gas cost c k rest total : ℕ)
      → cost ≤ gas
      → total < u64_mod
      → cost ≡ c
      → gas + k * c + rest ≡ total
      → sub_u64 gas cost + suc k * c + rest ≡ total
  spent gas cost c k rest total enough small same h =
      omega (arith, sub_u64-eq gas cost enough (omega arith), more k c)

  load-Accounted :
      (args : ArgsNewDataTrieMigrator) (loads : ℕ) (dtm : DataTrieMigrator)
      → args.gas_provided < u64_mod
      → Accounted args loads dtm
      → Accounted args (loads + paid load dtm) (consume_storage_load_gas dtm).1
  unfolding consume_storage_load_gas
  load-Accounted args loads dtm small a =
      elim (Bool-cases (ltb dtm.gas_remaining dtm.trie_load_cost)) [
        | inl short ↦ rw (short, add_zero loads) a
        | inr enough ↦
            rw (enough, add_one loads)
              (record {
                balance =
                    spent dtm.gas_remaining dtm.trie_load_cost args.trie_load_per_node loads
                      (length dtm.leaves_to_be_migrated * args.trie_store_per_node)
                      args.gas_provided
                      (omega (arith, le_of_not_ltb dtm.gas_remaining dtm.trie_load_cost enough))
                      small a.load_cost a.balance;
                load_cost = a.load_cost;
                migrate_cost = a.migrate_cost;
                unversioned = a.unversioned;
              })
      ]

  leaf-Accounted :
      (args : ArgsNewDataTrieMigrator) (loads : ℕ) (data_leaf : TrieData) (version : ℕ)
      (dtm : DataTrieMigrator)
      → args.gas_provided < u64_mod
      → Accounted args loads dtm
      → Accounted args loads
          (add_leaf_to_migration_queue not_specified auto_balance_enabled data_leaf version dtm).1
  unfolding add_leaf_to_migration_queue prepare_data_for_migration_to_auto_balance
  leaf-Accounted args loads data_leaf version dtm small a =
      elim (Bool-cases (ltb dtm.gas_remaining dtm.trie_migrate_cost)) [
        | inl short ↦ rw short a
        | inr enough ↦ rw enough (elim (Bool-cases (version == auto_balance_enabled)) [
          | inr other ↦ rw other a
          | inl wanted ↦ rw wanted (elim (Bool-cases (data_leaf.version == not_specified)) [
            | inr versioned ↦ rw versioned a
            | inl unspecified ↦ rw unspecified (record {
              balance = spent_on_leaf enough;
              load_cost = a.load_cost;
              migrate_cost = a.migrate_cost;
              unversioned =
                  All-append (λ t. t.version ≡ not_specified) dtm.leaves_to_be_migrated
                    (data_leaf ∷ []) a.unversioned
                    ((==_iff data_leaf.version not_specified).0 unspecified, tt);
            })
          ])
        ])
      ]
    where
      spent_on_leaf :
          ltb dtm.gas_remaining dtm.trie_migrate_cost ≡ false
          → sub_u64 dtm.gas_remaining dtm.trie_migrate_cost
              + loads * args.trie_load_per_node
              + length (dtm.leaves_to_be_migrated ++ data_leaf ∷ []) * args.trie_store_per_node
            ≡ args.gas_provided
      spent_on_leaf enough =
          let n = length dtm.leaves_to_be_migrated in
          let paid_once =
            spent dtm.gas_remaining dtm.trie_migrate_cost args.trie_store_per_node n
              (loads * args.trie_load_per_node) args.gas_provided
              (le_of_not_ltb dtm.gas_remaining dtm.trie_migrate_cost enough) small a.migrate_cost
              (omega (arith, a.balance)) in
          rw
            (
              length-append dtm.leaves_to_be_migrated (data_leaf ∷ []),
              add_one (length dtm.leaves_to_be_migrated),
            )
            (omega (arith, paid_once))

  call-Accounted :
      (args : ArgsNewDataTrieMigrator) (loads : ℕ) (c : Call) (dtm : DataTrieMigrator)
      → args.gas_provided < u64_mod
      → Accounted args loads dtm
      → Accounted args (loads + paid c dtm) (after_call c dtm)
  call-Accounted args loads load dtm small a = load-Accounted args loads dtm small a
  call-Accounted args loads (leaf t version) dtm small a =
      rw (add_zero loads) (leaf-Accounted args loads t version dtm small a)

  calls-Accounted :
      (args : ArgsNewDataTrieMigrator) (loads : ℕ) (cs : List Call) (dtm : DataTrieMigrator)
      → args.gas_provided < u64_mod
      → Accounted args loads dtm
      → Accounted args (loads + paid_loads cs dtm) (after_calls cs dtm)
  calls-Accounted args loads [] dtm small a = rw (add_zero loads) a
  calls-Accounted args loads (c ∷ cs) dtm small a =
      rw (sym (add_assoc loads (paid c dtm) (paid_loads cs (after_call c dtm)))) (
        calls-Accounted args (loads + paid c dtm) cs (after_call c dtm) small
          (call-Accounted args loads c dtm small a))

  -- Whatever the order of the calls on a new migrator with a uint64 of gas, the gas provided is what
  -- remains, the loads that were paid for and one migration for each queued leaf; the queued leaves
  -- had no version.
  pub after_calls-Accounted :
      (args : ArgsNewDataTrieMigrator) (cs : List Call)
      → args.gas_provided < u64_mod
      → let dtm = new_data_trie_migrator args in
        Accounted args (paid_loads cs dtm) (after_calls cs dtm)
  unfolding new_data_trie_migrator
  after_calls-Accounted args cs small =
      let dtm = new_data_trie_migrator args in
      subst (λ n. Accounted args n (after_calls cs dtm)) (zero_add (paid_loads cs dtm))
        (calls-Accounted args 0 cs dtm small (record {
          balance = omega arith;
          load_cost = refl;
          migrate_cost = refl;
          unversioned = tt;
        }))
