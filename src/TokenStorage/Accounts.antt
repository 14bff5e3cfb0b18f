-- ===== src/TokenStorage/Accounts.antt =====
-- The writes to the system account leave the accounts at hand alone.
use k_chain_vm_common_go.Common.{
  ℕ, ◌≡◌, refl, ◌∙◌, inl, inr, Bool, [], Option, none, some, Bytes, arith,
}
use k_chain_vm_common_go.Common.Int.{ℤ, ◌+ℤ◌}
use k_chain_vm_common_go.Errors.{Result-cases}
use k_chain_vm_common_go.Exec.{Exec, lift, reads, ◌>>=◌, bind-ok, bind-err}
use k_chain_vm_common_go.Vm.{DigitalToken}
use k_chain_vm_common_go.Env.{Env, World}
use k_chain_vm_common_go.TokenStorage.{
  compute_dcdt_nft_token_key, get_dcdt_digital_token_data_from_system_account, empty_token,
  default_query_options, get_system_account_with_options, save_and_persist, marshal_and_save_data,
}
use k_chain_vm_common_go.TokenStorage.Saving.{
  change_liquidity, add_to_found, add_to_liquidity_system_acc, save_metadata_if_required,
  current_data_of, save_new_data, save_meta_data, save_dcdt_meta_data_to_system_account,
  token_on_system_account,
}

module _ {A D : Type 0} where
  -- An action after which every reference stands for the account that it stood for.
  abbrev pub KeepsAccounts : {B : Type 0} → Exec (World A D) B → Type 0
  KeepsAccounts m = (w : World A D) → (m w).1.accounts ≡ w.accounts

  pub bind-KeepsAccounts :
      {B C : Type 0} (m : Exec (World A D) B) (f : B → Exec (World A D) C)
      → KeepsAccounts m
      → ((b : B) → KeepsAccounts (f b))
      → KeepsAccounts (m >>= f)
  bind-KeepsAccounts m f hm hf w = elim (Result-cases (m w).0) [
    | inl (b, done) ↦ rw (bind-ok m f w b done) (hf b (m w).1 ∙ hm w)
    | inr (x, failed) ↦ rw (bind-err m f w x failed) (hm w)
  ]

  module _ (e : Env A D) where
    save_and_persist-KeepsAccounts :
        (a : A) (key v : Bytes) → KeepsAccounts (save_and_persist e a key v)
    save_and_persist-KeepsAccounts a key v w = ground arith

    pub marshal_and_save_data-KeepsAccounts :
        (a : A) (t : DigitalToken) (key : Bytes) → KeepsAccounts (marshal_and_save_data e a t key)
    unfolding marshal_and_save_data
    marshal_and_save_data-KeepsAccounts a t key w = ground arith

    change_liquidity-KeepsAccounts :
        (v : ℤ) (a : A) (key : Bytes) (t : DigitalToken)
        → KeepsAccounts (change_liquidity e v a key t)
    change_liquidity-KeepsAccounts v a key t w =
        ground
          (arith, marshal_and_save_data-KeepsAccounts a (record t { value = t.value +ℤ v }) key w)

    add_to_found-KeepsAccounts :
        (v : ℤ) (a : A) (key : Bytes) (found : Option DigitalToken)
        → KeepsAccounts (add_to_found e v a key found)
    add_to_found-KeepsAccounts v a key none w = refl
    add_to_found-KeepsAccounts v a key (some t) w = ground (
      arith,
      marshal_and_save_data-KeepsAccounts a (record t { value = t.value +ℤ v }) key w,
      marshal_and_save_data-KeepsAccounts a (record t { reserved = [] }) key w,
    )

    pub add_to_liquidity-KeepsAccounts :
        (dcdt_token_key : Bytes) (nonce : ℕ) (value : ℤ)
        → KeepsAccounts (add_to_liquidity_system_acc e dcdt_token_key nonce value)
    unfolding add_to_liquidity_system_acc
    add_to_liquidity-KeepsAccounts dcdt_token_key nonce value w =
        let key = compute_dcdt_nft_token_key dcdt_token_key nonce in
        elim (Result-cases
          (get_dcdt_digital_token_data_from_system_account e key default_query_options w)) [
            | inl (r, got) ↦ ground (arith, got, add_to_found-KeepsAccounts value r.1 key r.0 w)
            | inr (x, fails) ↦ ground (arith, fails)
          ]

    save_metadata_if_required-KeepsAccounts :
        (key : Bytes) (a : A) (current : Bytes) (t : DigitalToken)
        → KeepsAccounts (save_metadata_if_required e key a current t)
    unfolding save_metadata_if_required
    save_metadata_if_required-KeepsAccounts key a current t w =
        elim (Result-cases (e.unmarshal_token empty_token current)) [
          | inl (s, read) ↦ ground (
            arith,
            read,
            marshal_and_save_data-KeepsAccounts a (record s { token_meta_data = t.token_meta_data })
                key w,
          )
          | inr (x, fails) ↦ ground (arith, fails)
        ]

    save_new_data-KeepsAccounts :
        (user_acc : Option ℕ) (shard : ℕ) (key : Bytes) (t : DigitalToken) (must : Bool)
        (current : Bytes) (a : A)
        → KeepsAccounts (save_new_data e user_acc shard key t must current a)
    save_new_data-KeepsAccounts user_acc shard key t must current a w =
        elim (Result-cases (token_on_system_account e user_acc shard key current t w)) [
          | inl (s, made) ↦ ground (arith, made, marshal_and_save_data-KeepsAccounts a s key w)
          | inr (x, fails) ↦ ground (arith, fails)
        ]

    save_meta_data-KeepsAccounts :
        (user_acc : Option ℕ) (sender_shard : ℕ) (key : Bytes) (t : DigitalToken) (must : Bool)
        → KeepsAccounts (save_meta_data e user_acc sender_shard key t must)
    save_meta_data-KeepsAccounts user_acc sender_shard key t must =
        let get = get_system_account_with_options e default_query_options in
        let rest = save_new_data e user_acc sender_shard key t must in
        let saves = λ (a : A) (current : Bytes).
          save_metadata_if_required e key a current t >>= λ a'. rest current a' in
        bind-KeepsAccounts (reads get)
          (λ a. lift (current_data_of e (e.retrieve_value a key)) >>= λ current. saves a current)
          (λ w. refl)
          (λ a.
            bind-KeepsAccounts (lift (current_data_of e (e.retrieve_value a key))) (saves a)
              (λ w. refl)
              (λ current.
                bind-KeepsAccounts (save_metadata_if_required e key a current t) (rest current)
                  (save_metadata_if_required-KeepsAccounts key a current t)
                  (save_new_data-KeepsAccounts user_acc sender_shard key t must current)))

    pub save_dcdt_meta_data-KeepsAccounts :
        (user_acc : Option ℕ) (sender_shard : ℕ) (key : Bytes) (nonce : ℕ) (t : DigitalToken)
        (must : Bool)
        → KeepsAccounts
            (save_dcdt_meta_data_to_system_account e user_acc sender_shard key nonce t must)
    unfolding save_dcdt_meta_data_to_system_account
    save_dcdt_meta_data-KeepsAccounts user_acc sender_shard key nonce t must w =
        ground (arith, save_meta_data-KeepsAccounts user_acc sender_shard key t must w)
