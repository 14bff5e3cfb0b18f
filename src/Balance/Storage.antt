-- ===== src/Balance/Storage.antt =====
-- What is read after a write of a token.
use k_chain_vm_common_go.Common.{
  ℕ, ◌≡◌, ◌≢◌, refl, ◌⊎◌, inl, inr, ◌&&◌, [], ◌∷◌, Bytes, arith, if◌then◌else◌, Bool-cases,
  Option-cases,
}
use k_chain_vm_common_go.Errors.{Error, Result, ok, err}
use k_chain_vm_common_go.Vm.{DigitalToken}
use k_chain_vm_common_go.Env.{Env, World, set_account}
use k_chain_vm_common_go.Env.Laws.{IsStore, IsMarshaller}
use k_chain_vm_common_go.Balance.{
  is_zero, save_at, are_properties_empty, new_token, get_dcdt_data_from_key, save_marshaled,
  save_dcdt_data,
}

module _ {A D : Type 0} (e : Env A D) where
  -- The token on the account behind a reference.
  abbrev pub token_at : World A D → ℕ → Bytes → Result DigitalToken
  token_at w p key = get_dcdt_data_from_key e (w.accounts p) key

  -- A token as a reader sees it: with neither value nor properties nothing is stored.
  abbrev pub stored : DigitalToken → DigitalToken
  stored t = if is_zero t.value && are_properties_empty t.properties then new_token e else t

  module _ (store : IsStore e) (marshaller : IsMarshaller e) where
    pub token_at-save_nil :
        (p : ℕ) (key : Bytes) (w : World A D)
        → (save_at e p key [] w).0 ≡ ok tt
        → token_at (save_at e p key [] w).1 p key ≡ ok (new_token e)
    unfolding get_dcdt_data_from_key set_account
    token_at-save_nil p key w h = ground (arith, store.retrieve-save_self (w.accounts p) key [])

    pub token_at-save_marshaled :
        (p : ℕ) (key b : Bytes) (t : DigitalToken) (w : World A D)
        → e.marshal_token t ≡ ok b
        → (save_at e p key b w).0 ≡ ok tt
        → token_at (save_at e p key b w).1 p key ≡ ok t
    unfolding get_dcdt_data_from_key set_account
    token_at-save_marshaled p key [] t w m h = absurd (marshaller.marshal_ne_nil t m)
    token_at-save_marshaled p key (x ∷ b) t w m h = ground (
      arith,
      store.retrieve-save_self (w.accounts p) key (x ∷ b),
      marshaller.unmarshal-marshal t (new_token e) (x ∷ b),
    )

    pub token_at-save_dcdt_data :
        (p : ℕ) (t : DigitalToken) (key : Bytes) (w : World A D)
        → (save_dcdt_data e p t key w).0 ≡ ok tt
        → token_at (save_dcdt_data e p t key w).1 p key ≡ ok (stored t)
    unfolding save_dcdt_data
    token_at-save_dcdt_data p t key w h =
        elim (Bool-cases (is_zero t.value && are_properties_empty t.properties)) [
          | inl empty ↦ rw empty (token_at-save_nil p key w (rw empty at h))
          | inr kept ↦ rw kept (marshaled (e.marshal_token t) refl (rw kept at h))
        ]
      where
        marshaled :
            (r : Result Bytes)
            → e.marshal_token t ≡ r
            → (save_marshaled e p key r w).0 ≡ ok tt
            → token_at (save_marshaled e p key r w).1 p key ≡ ok t
        marshaled (ok b) m s = token_at-save_marshaled p key b t w m s
        marshaled (err x) m s = absurd (cc)

    -- A save touches one key of one account.
    pub token_at-save_ne :
        (p q : ℕ) (key j v : Bytes) (w : World A D)
        → (q ≢ p) ⊎ (j ≢ key)
        → token_at (save_at e p key v w).1 q j ≡ token_at w q j
    unfolding get_dcdt_data_from_key set_account
    token_at-save_ne p q key j v w h = ground (arith, store.retrieve-save_ne (w.accounts p) key j v)

    pub address-save_at :
        (p q : ℕ) (key v : Bytes) (w : World A D)
        → e.address_bytes ((save_at e p key v w).1.accounts q) ≡ e.address_bytes (w.accounts q)
    unfolding set_account
    address-save_at p q key v w = ground (arith, store.address-save (w.accounts p) key v)

    pub token_at-save_failed :
        (p q : ℕ) (key j v : Bytes) (x : Error) (w : World A D)
        → (save_at e p key v w).0 ≡ err x
        → token_at (save_at e p key v w).1 q j ≡ token_at w q j
    unfolding get_dcdt_data_from_key set_account
    token_at-save_failed p q key j v x w h =
        elim (Option-cases (e.save_key_value (w.accounts p) key v).0) [
          | inl done ↦ ground arith
          | inr (f, failed) ↦ ground (arith, store.save_failed (w.accounts p) key v f)
        ]
