-- ===== src/TokenStorage/Contract.antt =====
-- What the token storage promises to its clients.
use k_chain_vm_common_go.Common.{ℕ, ◌≡◌, ◌≢◌, ◌∙◌, ap, ◌⊎◌, Bool, false, Bytes}
use k_chain_vm_common_go.Common.Int.{ℤ}
use k_chain_vm_common_go.Errors.{ok}
use k_chain_vm_common_go.Vm.{DigitalToken}
use k_chain_vm_common_go.Env.{Env, World}
use k_chain_vm_common_go.Interfaces.{StorageHandler}
use k_chain_vm_common_go.Balance.{is_negative, get_dcdt_data_from_key}
use k_chain_vm_common_go.Balance.Storage.{token_at}
use k_chain_vm_common_go.Balance.Held.{held, value_of}
use k_chain_vm_common_go.TokenStorage.{compute_dcdt_nft_token_key}
use k_chain_vm_common_go.TokenStorage.Accounts.{KeepsAccounts}

module _ {A D : Type 0} (e : Env A D) where
  -- Between two worlds one holding has become a value, and no other token of an account has changed.
  pub record Holds (p : ℕ) (key : Bytes) (value : ℤ) (w w' : World A D) : Type 0 where
    pub now : held e w' p key ≡ value
    pub others : (q : ℕ) (j : Bytes) → (q ≢ p) ⊎ (j ≢ key) → token_at e w' q j ≡ token_at e w q j

  -- What is held stays where every reference stands for the same account.
  pub Holds-same_accounts :
      (p : ℕ) (key : Bytes) (value : ℤ) (w w' w'' : World A D)
      → w''.accounts ≡ w'.accounts
      → Holds p key value w w'
      → Holds p key value w w''
  Holds-same_accounts p key value w w' w'' same holds = record {
    now =
        ap (λ (accs : ℕ → A). value_of e (get_dcdt_data_from_key e (accs p) key)) same ∙ holds.now;
    others = λ q j o.
        ap (λ (accs : ℕ → A). get_dcdt_data_from_key e (accs q) j) same ∙ holds.others q j o;
  }

  -- The storage by its keys: what it reads is what is held under the key, what it saves is held there
  -- afterwards and nothing under another key has changed, and neither a change of the liquidity nor a
  -- mark of the shards touches an account.
  pub record IsTokenStorage (s : StorageHandler (World A D)) : Type 0 where
    pub reads_held :
        (w : World A D) (p : ℕ) (k : Bytes) (n : ℕ) (t : DigitalToken)
        → s.get_dcdt_nft_token_on_sender w p k n ≡ ok t
        → held e w p (compute_dcdt_nft_token_key k n) ≡ t.value
    pub saves :
        (a : Bytes) (p : ℕ) (k : Bytes) (n : ℕ) (t : DigitalToken) (must ret : Bool) (w : World A D)
        (b : Bytes)
        → (s.save_dcdt_nft_token a p k n t must ret w).0 ≡ ok b
        → is_negative t.value ≡ false
        → Holds p
            (compute_dcdt_nft_token_key k n)
            t.value
            w
            (s.save_dcdt_nft_token a p k n t must ret w).1
    pub keeps_accounts_sent :
        (k : Bytes) (n : ℕ) (a : Bytes) → KeepsAccounts (s.was_already_sent k n a)
    pub keeps_accounts :
        (k : Bytes) (n : ℕ) (v : ℤ) → KeepsAccounts (s.add_to_liquidity_system_acc k n v)
