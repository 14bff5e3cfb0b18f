-- ===== src/TokenStorage/Holding.antt =====
-- The storage of dcdtDataStorage.go and the contract of a token storage.
use k_chain_vm_common_go.Common.{
  ℕ, ◌≡◌, refl, sym, ◌∙◌, ap, ◌⊎◌, inl, inr, Bool, true, false, not, [], none, some, Bytes, arith,
  if◌then◌else◌, Bool-cases,
}
use k_chain_vm_common_go.Common.Int.{ℤ, pos}
use k_chain_vm_common_go.Errors.{ok, Result-cases}
use k_chain_vm_common_go.Exec.{Exec, pure, ◌>>=◌, then_pure-ok, bind-inv}
use k_chain_vm_common_go.Vm.{DigitalToken}
use k_chain_vm_common_go.Env.{Env, World, save_to_system_account_flag}
use k_chain_vm_common_go.Env.Laws.{IsStore, IsMarshaller}
use k_chain_vm_common_go.Interfaces.{SettingsHandler}
use k_chain_vm_common_go.Balance.{is_zero, is_negative, save_at, get_dcdt_data_from_key}
use k_chain_vm_common_go.Balance.Storage.{
  token_at-save_nil, token_at-save_marshaled, token_at-save_ne,
}
use k_chain_vm_common_go.Balance.Held.{held, value_of}
use k_chain_vm_common_go.TokenStorage.Handler.{storage_handler}
use k_chain_vm_common_go.TokenStorage.{
  compute_dcdt_nft_token_key, get_with_options, get_dcdt_nft_token_on_destination,
  get_dcdt_nft_token_on_sender, check_frozen_pause_properties,
}
use k_chain_vm_common_go.TokenStorage.Saving.{
  save_dcdt_meta_data_to_system_account, save_on_account, save_dcdt_nft_token,
}
use k_chain_vm_common_go.TokenStorage.Accounts.{
  KeepsAccounts, save_dcdt_meta_data-KeepsAccounts, add_to_liquidity-KeepsAccounts,
}
use k_chain_vm_common_go.TokenStorage.SentAccounts.{was_already_sent-KeepsAccounts}
use k_chain_vm_common_go.TokenStorage.Contract.{Holds, IsTokenStorage}

module _ {A D : Type 0} (e : Env A D) where
  reads_value :
      (w : World A D) (p : ℕ) (k : Bytes) (n : ℕ) (t : DigitalToken)
      → get_dcdt_nft_token_on_sender e w p k n ≡ ok t
      → held e w p (compute_dcdt_nft_token_key k n) ≡ t.value
  unfolding get_dcdt_nft_token_on_sender get_dcdt_nft_token_on_destination get_with_options
      get_dcdt_data_from_key
  reads_value w p k n t h = ground arith

  module _ (store : IsStore e) (marshaller : IsMarshaller e) where
    zero_of : (n : ℤ) → is_zero n ≡ true → pos 0 ≡ n
    zero_of n z = ground arith

    -- The token as it is saved on the account.
    abbrev on_account : DigitalToken → DigitalToken
    on_account t =
        if not (e.is_flag_enabled save_to_system_account_flag)
        then t
        else record t { token_meta_data = none; reserved = [] }

    value-on_account : (t : DigitalToken) → (on_account t).value ≡ t.value
    value-on_account t = ground arith

    -- The two ways of saving: nothing where there is no quantity, or the token marshalled.
    save_on_account-cases :
        (p : ℕ) (key : Bytes) (t : DigitalToken) (w : World A D) (b : Bytes)
        → (save_on_account e p key t w).0 ≡ ok b
        → is_negative t.value ≡ false
        → ((is_zero t.value ≡ true)
            × ((save_at e p key [] w).0 ≡ ok tt)
            × ((save_on_account e p key t w).1 ≡ (save_at e p key [] w).1))
          ⊎ ((m : Bytes) × (e.marshal_token (on_account t) ≡ ok m)
              × ((save_at e p key m w).0 ≡ ok tt)
              × ((save_on_account e p key t w).1 ≡ (save_at e p key m w).1))
    save_on_account-cases p key t w b h covered = elim (Bool-cases (is_zero t.value)) [
      | inl empty ↦
          let ((_, saved), same) = then_pure-ok (save_at e p key []) [] b w (rw empty at h) in
          inl (empty, saved, rw empty same)
      | inr kept ↦ inr (elim (Result-cases (e.marshal_token (on_account t))) [
        | inl (m, done) ↦
            let ((_, saved), same) =
              then_pure-ok (save_at e p key m) m b w (rw (kept, covered, done) at h) in
            (m, done, saved, rw (kept, covered, done) same)
        | inr (x, fails) ↦ absurd (cc (rw (kept, covered, fails) at h))
      ])
    ]

    save_on_account-Holds :
        (p : ℕ) (key : Bytes) (t : DigitalToken) (w : World A D) (b : Bytes)
        → (save_on_account e p key t w).0 ≡ ok b
        → is_negative t.value ≡ false
        → Holds e p key t.value w (save_on_account e p key t w).1
    save_on_account-Holds p key t w b h covered =
        elim (save_on_account-cases p key t w b h covered) [
          | inl (empty, saved, same) ↦ rw same (record {
            now =
                ap (value_of e) (token_at-save_nil e store marshaller p key w saved)
                ∙ zero_of t.value empty;
            others = λ q j o. token_at-save_ne e store marshaller p q key j [] w o;
          })
          | inr (m, marshaled, saved, same) ↦ rw same (record {
            now =
                ap (value_of e) (
                  token_at-save_marshaled e store marshaller p key m (on_account t) w marshaled
                    saved)
                ∙ value-on_account t;
            others = λ q j o. token_at-save_ne e store marshaller p q key j m w o;
          })
        ]

    check_frozen_pause_properties-world :
        (settings : SettingsHandler (World A D)) (p : ℕ) (k : Bytes) (n : ℕ) (t : DigitalToken)
        (ret : Bool) (w : World A D)
        → (check_frozen_pause_properties e settings p k n t ret w).1 ≡ w
    unfolding check_frozen_pause_properties
    check_frozen_pause_properties-world settings p k n t ret w = ground arith

    -- A save that succeeds has saved on the account, in a world with the same accounts.
    save_steps :
        (settings : SettingsHandler (World A D)) (a : Bytes) (p : ℕ) (k : Bytes) (n : ℕ)
        (t : DigitalToken) (must ret : Bool) (w : World A D) (b : Bytes)
        → (save_dcdt_nft_token e settings a p k n t must ret w).0 ≡ ok b
        → (u : World A D) × (u.accounts ≡ w.accounts)
          × (save_dcdt_nft_token e settings a p k n t must ret w
              ≡ save_on_account e p (compute_dcdt_nft_token_key k n) t u)
    unfolding save_dcdt_nft_token
    save_steps settings a p k n t must ret w b h =
        let key = compute_dcdt_nft_token_key k n in
        let check = check_frozen_pause_properties e settings p k n t ret in
        let save = save_on_account e p key t in
        let (_, _, checked) = bind-inv check (λ _. meta >>= λ _. save) w b h in
        let v = (check w).1 in
        let (_, _, written) = bind-inv meta (λ _. save) v b (ap (λ r. r.0) (sym checked) ∙ h) in
        (
          (meta v).1,
          meta_keeps v
              ∙ ap (λ (u : World A D). u.accounts)
                  (check_frozen_pause_properties-world settings p k n t ret w),
          checked ∙ written,
        )
      where
        meta : Exec (World A D) (Unit {0})
        meta =
            if e.is_flag_enabled save_to_system_account_flag
            then save_dcdt_meta_data_to_system_account e (some p) (e.compute_id a)
                (compute_dcdt_nft_token_key k n) n t must
            else pure tt

        meta_keeps : KeepsAccounts meta
        meta_keeps u = elim (Bool-cases (e.is_flag_enabled save_to_system_account_flag)) [
          | inl on ↦ rw on (
              save_dcdt_meta_data-KeepsAccounts e (some p) (e.compute_id a)
                (compute_dcdt_nft_token_key k n) n t must u)
          | inr off ↦ rw off refl
        ]

    -- Over a data trie and a marshaller that behave as documented, and whatever the settings, the
    -- storage of dcdtDataStorage reads what is held under the key of a token and its nonce; what it
    -- saves, if it is not negative, is held there afterwards and nothing under another key has
    -- changed; and neither the liquidity nor the marks of the shards touch an account.
    pub storage_handler-IsTokenStorage :
        (settings : SettingsHandler (World A D)) → IsTokenStorage e (storage_handler e settings)
    unfolding storage_handler
    storage_handler-IsTokenStorage settings = record {
      reads_held = reads_value;
      saves = λ a p k n t must ret w b h covered.
          let key = compute_dcdt_nft_token_key k n in
          let (u, same, steps) = save_steps settings a p k n t must ret w b h in
          let holds = save_on_account-Holds p key t u b (ap (λ r. r.0) (sym steps) ∙ h) covered in
          rw steps (record {
            now = holds.now;
            others = λ q j o.
                holds.others q j o
                ∙ ap (λ (accs : ℕ → A). get_dcdt_data_from_key e (accs q) j) same;
          });
      keeps_accounts_sent = was_already_sent-KeepsAccounts e;
      keeps_accounts = add_to_liquidity-KeepsAccounts e;
    }
