-- ===== src/TokenStorage/Reading.antt =====
-- builtInFunctions/dcdtDataStorage.go: a token of which something is held is read.
use k_chain_vm_common_go.Common.{
  ℕ, ◌<◌, ◌≡◌, ◌≢◌, refl, ◌∙◌, ap, ◌⊎◌, inl, inr, false, not, ◌||◌, ◌==◌, [], ◌∷◌, none, some,
  Bytes, arith, Bool-cases,
}
use k_chain_vm_common_go.Common.Int.{pos}
use k_chain_vm_common_go.Errors.{Error, Result, ok, err, Result-cases}
use k_chain_vm_common_go.Vm.{DigitalToken}
use k_chain_vm_common_go.Env.{Env, World, save_to_system_account_flag}
use k_chain_vm_common_go.Balance.{retrieved, unmarshal_or_new, new_token, get_dcdt_data_from_key}
use k_chain_vm_common_go.Balance.Held.{held, value_of}
use k_chain_vm_common_go.TokenStorage.{
  compute_dcdt_nft_token_key, completed, default_query_options,
  get_dcdt_meta_data_from_system_account, get_with_options, get_dcdt_nft_token_on_destination,
  get_dcdt_nft_token_on_sender,
}

module _ {A D : Type 0} (e : Env A D) where
  -- The metadata of a token with a nonce cannot be read of the system account.
  abbrev pub MetaDataFails : World A D → Bytes → ℕ → Type 0
  MetaDataFails w key n =
      (0 < n)
      × ((x : Error) × (get_dcdt_meta_data_from_system_account e key default_query_options w
            ≡ err x))

  completed_found :
      (n : ℕ) (key : Bytes) (w : World A D) (b : Bytes)
      → value_of e (unmarshal_or_new e b) ≢ pos 0
      → ((t : DigitalToken) × (completed e n default_query_options key w b ≡ ok (t, false)))
        ⊎ MetaDataFails w key n
  completed_found n key w [] some_value = absurd (some_value refl)
  completed_found n key w (b ∷ bs) some_value =
      elim (Result-cases (e.unmarshal_token (new_token e) (b ∷ bs))) [
        | inr (x, fails) ↦ absurd (some_value (ap (value_of e) fails))
        | inl (t, read) ↦
            elim (Bool-cases (not (e.is_flag_enabled save_to_system_account_flag) || (n == 0))) [
              | inl plain ↦ inl (t, ground (arith, read, plain))
              | inr both ↦
                  elim (Result-cases
                    (get_dcdt_meta_data_from_system_account e key default_query_options w)) [
                      | inl (none, got) ↦ inl (t, ground (arith, read, both, got))
                      | inl (some m, got) ↦
                          inl
                            (record t { token_meta_data = some m }, ground (arith, read, both, got))
                      | inr (x, fails) ↦ inr (ground arith, (x, fails))
                    ]
            ]
      ]

  found_on :
      (w : World A D) (p : ℕ) (k : Bytes) (n : ℕ) (r : Result Bytes)
      → retrieved (e.retrieve_value (w.accounts p) (compute_dcdt_nft_token_key k n)) ≡ r
      → held e w p (compute_dcdt_nft_token_key k n) ≢ pos 0
      → ((t : DigitalToken) × (get_dcdt_nft_token_on_sender e w p k n ≡ ok t))
        ⊎ MetaDataFails w (compute_dcdt_nft_token_key k n) n
  unfolding get_dcdt_nft_token_on_sender get_dcdt_nft_token_on_destination get_with_options
      get_dcdt_data_from_key
  found_on w p k n (err x) fails some_value = absurd (some_value (ground (arith, fails)))
  found_on w p k n (ok b) read some_value =
      let value : held e w p (compute_dcdt_nft_token_key k n) ≡ value_of e (unmarshal_or_new e b) =
        ground (arith, read) in
      elim (completed_found n (compute_dcdt_nft_token_key k n) w b (λ z. some_value (value ∙ z))) [
        | inl (t, done) ↦ inl (t, ground (arith, read, done))
        | inr fails ↦ inr fails
      ]

  -- Where an account holds something of a token, reading it gives a token, unless the metadata of the
  -- system account cannot be read.
  pub held_is_read :
      (w : World A D) (p : ℕ) (k : Bytes) (n : ℕ)
      → held e w p (compute_dcdt_nft_token_key k n) ≢ pos 0
      → ((t : DigitalToken) × (get_dcdt_nft_token_on_sender e w p k n ≡ ok t))
        ⊎ MetaDataFails w (compute_dcdt_nft_token_key k n) n
  held_is_read w p k n some_value =
      found_on w p k n
        (retrieved (e.retrieve_value (w.accounts p) (compute_dcdt_nft_token_key k n))) refl
        some_value
