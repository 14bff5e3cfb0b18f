-- ===== src/TokenStorage/System.antt =====
-- The system account of the shard: what is read of it after a write through the adapter.
use k_chain_vm_common_go.Common.{
  ◌≡◌, ◌≢◌, sym, ◌∙◌, ap, inl, inr, [], ◌∷◌, Option, none, some, Bytes, arith,
}
use k_chain_vm_common_go.Errors.{HostError, Result, ok, err, Result-cases}
use k_chain_vm_common_go.Vm.{DigitalToken}
use k_chain_vm_common_go.Env.{Env, World}
use k_chain_vm_common_go.Env.Laws.{IsStore, IsMarshaller, IsAdapter}
use k_chain_vm_common_go.Settings.{get_system_account, save_system_account}
use k_chain_vm_common_go.Settings.Toggle.{system_after}
use k_chain_vm_common_go.Balance.{retrieved}
use k_chain_vm_common_go.TokenStorage.{
  default_query_options, load_system_account, get_system_account_with_options, system_token,
  unmarshal_found, get_dcdt_digital_token_data_from_system_account, save_and_persist,
  marshal_and_save_data, empty_token,
}

module _ {A D : Type 0} (e : Env A D) where
  -- The token under a key of the system account, if there is one.
  abbrev pub system_token_at : World A D → Bytes → Result (Option DigitalToken)
  system_token_at w key = elim (load_system_account e w) [
    | ok a ↦ system_token e a key
    | err x ↦ err x
  ]

  pub system_token_of :
      (w : World A D) (a : A) (key : Bytes)
      → load_system_account e w ≡ ok a
      → system_token_at w key ≡ system_token e a key
  system_token_of w a key g = ground arith

  pub get_data-found :
      (w : World A D) (key : Bytes) (found : Option DigitalToken) (a : A)
      → get_dcdt_digital_token_data_from_system_account e key default_query_options w
        ≡ ok (found, a)
      → (load_system_account e w ≡ ok a) × (system_token_at w key ≡ ok found)
  unfolding get_dcdt_digital_token_data_from_system_account get_system_account_with_options
  get_data-found w key found a h = ground arith

  pub get_data_of :
      (w : World A D) (key : Bytes) (found : Option DigitalToken) (a : A)
      → load_system_account e w ≡ ok a
      → system_token_at w key ≡ ok found
      → get_dcdt_digital_token_data_from_system_account e key default_query_options w
        ≡ ok (found, a)
  unfolding get_dcdt_digital_token_data_from_system_account get_system_account_with_options
  get_data_of w key found a loads h = ground arith

  module _ (store : IsStore e) (adapter : IsAdapter e) where
    pub save_and_persist-system :
        (w : World A D) (a a' : A) (key v : Bytes)
        → load_system_account e w ≡ ok a
        → (save_and_persist e a key v w).0 ≡ ok a'
        → (load_system_account e (save_and_persist e a key v w).1 ≡ ok (e.save_key_value a key v).1)
          × ((e.save_key_value a key v).0 ≡ none)
          × ((save_and_persist e a key v w).1.accounts ≡ w.accounts)
          × (a' ≡ (e.save_key_value a key v).1)
    unfolding load_system_account get_system_account
    save_and_persist-system w a a' key v g h =
        let same : (save_and_persist e a key v w).1 ≡ (save_system_account e a key v w).1 =
          ground arith in
        let done : (save_system_account e a key v w).0 ≡ ok tt = ground arith in
        let (loads, saved, accounts) = system_after e store adapter w a key v g done in
        (
          ap (load_system_account e) same ∙ loads,
          saved,
          ap (λ (u : World A D). u.accounts) same ∙ accounts,
          ground arith,
        )

    -- After a write of one key, the token under that key is what was written, and every other is as
    -- it was.
    pub save_and_persist-tokens :
        (w : World A D) (a a' : A) (key v : Bytes)
        → load_system_account e w ≡ ok a
        → (save_and_persist e a key v w).0 ≡ ok a'
        → (system_token_at (save_and_persist e a key v w).1 key ≡ unmarshal_found e v)
          × ((j : Bytes)
              → j ≢ key
              → system_token_at (save_and_persist e a key v w).1 j ≡ system_token_at w j)
          × ((save_and_persist e a key v w).1.accounts ≡ w.accounts)
    save_and_persist-tokens w a a' key v g h =
        let w' = (save_and_persist e a key v w).1 in
        let (loads, saved, accounts, _) = save_and_persist-system w a a' key v g h in
        (
          system_token_of w' (e.save_key_value a key v).1 key loads
              ∙ ap found_at (store.retrieve-save_self a key v saved),
          λ j ne.
              system_token_of w' (e.save_key_value a key v).1 j loads
              ∙ ap found_at (store.retrieve-save_ne a key j v (λ p. ne (sym p)))
              ∙ sym (system_token_of w a j g),
          accounts,
        )
      where
        found_at : Bytes × Option HostError → Result (Option DigitalToken)
        found_at r = elim (retrieved r) [ ok b ↦ unmarshal_found e b | err x ↦ err x ]

    -- The same for a token that is marshalled, where the marshaller reads back what it wrote.
    pub marshal_and_save_data-tokens :
        (marshaller : IsMarshaller e) (w : World A D) (a a' : A) (t : DigitalToken) (key : Bytes)
        → load_system_account e w ≡ ok a
        → (marshal_and_save_data e a t key w).0 ≡ ok a'
        → (system_token_at (marshal_and_save_data e a t key w).1 key ≡ ok (some t))
          × ((j : Bytes)
              → j ≢ key
              → system_token_at (marshal_and_save_data e a t key w).1 j ≡ system_token_at w j)
          × ((marshal_and_save_data e a t key w).1.accounts ≡ w.accounts)
    unfolding marshal_and_save_data
    marshal_and_save_data-tokens marshaller w a a' t key g h =
        elim (Result-cases (e.marshal_token t)) [
          | inl (b, m) ↦ rw m (
              let (now, others, accounts) = save_and_persist-tokens w a a' key b g (rw m at h) in
              (now ∙ read_back b m, others, accounts))
          | inr (x, m) ↦ absurd (cc (rw m at h))
        ]
      where
        read_back : (b : Bytes) → e.marshal_token t ≡ ok b → unmarshal_found e b ≡ ok (some t)
        read_back [] m = absurd (marshaller.marshal_ne_nil t m)
        read_back (x ∷ b) m = ground (arith, marshaller.unmarshal-marshal t empty_token (x ∷ b))
