-- ===== src/Balance/Update.antt =====
-- addToDCDTBalance: what a change that succeeds has done, and that a change that fails has done
-- nothing.
use k_chain_vm_common_go.Common.{
  ℕ, ◌≡◌, ◌≢◌, refl, ap, ◌⊎◌, inl, inr, Bool, false, ◌&&◌, [], Bytes, arith, Bool-cases,
}
use k_chain_vm_common_go.Common.Int.{ℤ, ◌+ℤ◌}
use k_chain_vm_common_go.Errors.{Error, Result, ok, err}
use k_chain_vm_common_go.Vm.{DigitalToken}
use k_chain_vm_common_go.Env.{Env, World}
use k_chain_vm_common_go.Env.Laws.{IsStore, IsMarshaller}
use k_chain_vm_common_go.Interfaces.{SettingsHandler}
use k_chain_vm_common_go.Balance.{
  is_zero, is_negative, are_properties_empty, save_marshaled, save_dcdt_data, add_to_dcdt_balance,
}
use k_chain_vm_common_go.Balance.Storage.{
  token_at, stored, token_at-save_dcdt_data, token_at-save_ne, token_at-save_failed,
  address-save_at,
}

module _ {A D : Type 0} (e : Env A D) where
  -- What a call that succeeds has done between two worlds: the token under the key of the account
  -- has changed by the value, to one that is not negative, and no other token or address has.
  pub record Credited (p : ℕ) (key : Bytes) (value : ℤ) (w w' : World A D) : Type 0 where
    pub before : DigitalToken
    pub found : token_at e w p key ≡ ok before
    pub fungible_before : before.token_type ≡ e.fungible
    pub after :
        token_at e w' p key ≡ ok (stored e (record before { value = before.value +ℤ value }))
    pub covered : is_negative (before.value +ℤ value) ≡ false
    pub others : (q : ℕ) (j : Bytes) → (q ≢ p) ⊎ (j ≢ key) → token_at e w' q j ≡ token_at e w q j
    pub addresses : (q : ℕ) → e.address_bytes (w'.accounts q) ≡ e.address_bytes (w.accounts q)

  -- No token has changed.
  abbrev pub Unchanged : World A D → World A D → Type 0
  Unchanged w w' = (q : ℕ) (j : Bytes) → token_at e w' q j ≡ token_at e w q j

  module _ (store : IsStore e) (marshaller : IsMarshaller e) where
    pub save_dcdt_data-others :
        (p q : ℕ) (t : DigitalToken) (key j : Bytes) (w : World A D)
        → (q ≢ p) ⊎ (j ≢ key)
        → token_at e (save_dcdt_data e p t key w).1 q j ≡ token_at e w q j
    unfolding save_dcdt_data
    save_dcdt_data-others p q t key j w h =
        elim (Bool-cases (is_zero t.value && are_properties_empty t.properties)) [
          | inl empty ↦ rw empty (token_at-save_ne e store marshaller p q key j [] w h)
          | inr kept ↦ rw kept (marshaled (e.marshal_token t))
        ]
      where
        marshaled :
            (r : Result Bytes) → token_at e (save_marshaled e p key r w).1 q j ≡ token_at e w q j
        marshaled (ok b) = token_at-save_ne e store marshaller p q key j b w h
        marshaled (err x) = refl

    save_dcdt_data-failed :
        (p q : ℕ) (t : DigitalToken) (key j : Bytes) (x : Error) (w : World A D)
        → (save_dcdt_data e p t key w).0 ≡ err x
        → token_at e (save_dcdt_data e p t key w).1 q j ≡ token_at e w q j
    unfolding save_dcdt_data
    save_dcdt_data-failed p q t key j x w h =
        elim (Bool-cases (is_zero t.value && are_properties_empty t.properties)) [
          | inl empty ↦
              rw empty (token_at-save_failed e store marshaller p q key j [] x w (rw empty at h))
          | inr kept ↦ rw kept (marshaled (e.marshal_token t) (rw kept at h))
        ]
      where
        marshaled :
            (r : Result Bytes)
            → (save_marshaled e p key r w).0 ≡ err x
            → token_at e (save_marshaled e p key r w).1 q j ≡ token_at e w q j
        marshaled (ok b) s = token_at-save_failed e store marshaller p q key j b x w s
        marshaled (err y) s = refl

    pub address-save_dcdt_data :
        (p q : ℕ) (t : DigitalToken) (key : Bytes) (w : World A D)
        → e.address_bytes ((save_dcdt_data e p t key w).1.accounts q)
          ≡ e.address_bytes (w.accounts q)
    unfolding save_dcdt_data
    address-save_dcdt_data p q t key w =
        elim (Bool-cases (is_zero t.value && are_properties_empty t.properties)) [
          | inl empty ↦ rw empty (address-save_at e store marshaller p q key [] w)
          | inr kept ↦ rw kept (marshaled (e.marshal_token t))
        ]
      where
        marshaled :
            (r : Result Bytes)
            → e.address_bytes ((save_marshaled e p key r w).1.accounts q)
              ≡ e.address_bytes (w.accounts q)
        marshaled (ok b) = address-save_at e store marshaller p q key b w
        marshaled (err y) = refl

    module _ (settings : SettingsHandler (World A D)) where
      credit :
          (p : ℕ) (key : Bytes) (value : ℤ) (ret : Bool) (w : World A D) (t : DigitalToken)
          → token_at e w p key ≡ ok t
          → (add_to_dcdt_balance e p key value settings ret w).0 ≡ ok tt
          → (t.token_type ≡ e.fungible)
            × (is_negative (t.value +ℤ value) ≡ false)
            × (add_to_dcdt_balance e p key value settings ret w
                ≡ save_dcdt_data e p (record t { value = t.value +ℤ value }) key w)
            × ((save_dcdt_data e p (record t { value = t.value +ℤ value }) key w).0 ≡ ok tt)
      unfolding add_to_dcdt_balance
      credit p key value ret w t found h = ground arith

      credit_missing :
          (p : ℕ) (key : Bytes) (value : ℤ) (ret : Bool) (w : World A D) (x : Error)
          → token_at e w p key ≡ err x
          → add_to_dcdt_balance e p key value settings ret w ≡ (err x, w)
      unfolding add_to_dcdt_balance
      credit_missing p key value ret w x missing = ground arith

      -- A change that succeeds adds the value to that token alone, and the sum is not negative.
      pub add_to_dcdt_balance-Credited :
          (p : ℕ) (key : Bytes) (value : ℤ) (ret : Bool) (w : World A D)
          → (add_to_dcdt_balance e p key value settings ret w).0 ≡ ok tt
          → Credited p key value w (add_to_dcdt_balance e p key value settings ret w).1
      add_to_dcdt_balance-Credited p key value ret w h = from (token_at e w p key) refl
        where
          from :
              (r : Result DigitalToken)
              → token_at e w p key ≡ r
              → Credited p key value w (add_to_dcdt_balance e p key value settings ret w).1
          from (ok t) found =
              let c = credit p key value ret w t found h in
              let t' : DigitalToken = record t { value = t.value +ℤ value } in
              rw c.2 (record {
                before = t;
                found = found;
                fungible_before = c.0;
                after = token_at-save_dcdt_data e store marshaller p t' key w c.3;
                covered = c.1;
                others = λ q j o. save_dcdt_data-others p q t' key j w o;
                addresses = λ q. address-save_dcdt_data p q t' key w;
              })
          from (err x) missing = cc (credit_missing p key value ret w x missing)

      debit_failed :
          (p q : ℕ) (key j : Bytes) (value : ℤ) (ret : Bool) (w : World A D) (t : DigitalToken)
          (x : Error)
          → token_at e w p key ≡ ok t
          → (add_to_dcdt_balance e p key value settings ret w).0 ≡ err x
          → token_at e (add_to_dcdt_balance e p key value settings ret w).1 q j ≡ token_at e w q j
      unfolding add_to_dcdt_balance
      debit_failed p q key j value ret w t x found h =
          ground
            (arith, save_dcdt_data-failed p q (record t { value = t.value +ℤ value }) key j x w)

      -- A change that returns an error has changed no token.
      pub add_to_dcdt_balance-failed :
          (p : ℕ) (key : Bytes) (value : ℤ) (ret : Bool) (x : Error) (w : World A D)
          → (add_to_dcdt_balance e p key value settings ret w).0 ≡ err x
          → Unchanged w (add_to_dcdt_balance e p key value settings ret w).1
      add_to_dcdt_balance-failed p key value ret x w h q j = from (token_at e w p key) refl
        where
          from :
              (r : Result DigitalToken)
              → token_at e w p key ≡ r
              → token_at e (add_to_dcdt_balance e p key value settings ret w).1 q j
                ≡ token_at e w q j
          from (ok t) found = debit_failed p q key j value ret w t x found h
          from (err y) missing =
              ap (λ (r : Result (Unit {0}) × World A D). token_at e r.1 q j)
                (credit_missing p key value ret w y missing)
