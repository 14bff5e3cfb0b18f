-- ===== src/TokenStorage/Map.antt =====
-- builtInFunctions/dcdtDataStorage.go: computeDCDTNFTTokenKey keeps apart the tokens and the nonces,
-- so that the storage is a map over them.
use k_chain_vm_common_go.Common.{
  ℕ, ◌≡◌, ◌≢◌, refl, sym, ◌∙◌, ap, ◌⊎◌, inl, inr, Bool, false, [], ◌∷◌, ◌++◌, Bytes, All,
  append_assoc, arith, length,
}
use k_chain_vm_common_go.Common.Int.{ℤ, pos}
use k_chain_vm_common_go.Numbers.{nat_bytes, set_bytes}
use k_chain_vm_common_go.Numbers.RoundTrip.{set_bytes-nat_bytes}
use k_chain_vm_common_go.Errors.{ok}
use k_chain_vm_common_go.Vm.{DigitalToken}
use k_chain_vm_common_go.Env.{Core, Env, World, dcdt_token_key, base_dcdt_key_prefix}
use k_chain_vm_common_go.Env.Laws.{IsStore, IsMarshaller}
use k_chain_vm_common_go.Interfaces.{SettingsHandler, StorageHandler}
use k_chain_vm_common_go.TokenName.Spec.{Named, IsTickerChar}
use k_chain_vm_common_go.Balance.{is_negative, get_dcdt_data_from_key}
use k_chain_vm_common_go.Balance.Held.{held, value_of}
use k_chain_vm_common_go.TokenStorage.{compute_dcdt_nft_token_key}
use k_chain_vm_common_go.TokenStorage.Contract.{Holds}
use k_chain_vm_common_go.TokenStorage.Reading.{MetaDataFails, held_is_read}
use k_chain_vm_common_go.TokenStorage.Handler.{storage_handler}
use k_chain_vm_common_go.TokenStorage.Holding.{storage_handler-IsTokenStorage}

-- Two texts that agree up to the first dash, which no ticker has.
same_at_dash :
    (xs ys r s : Bytes)
    → All IsTickerChar xs
    → All IsTickerChar ys
    → xs ++ (b'-' ∷ r) ≡ ys ++ (b'-' ∷ s)
    → (xs ≡ ys) × (r ≡ s)
same_at_dash [] [] r s hx hy h = (refl, cc h)
same_at_dash [] (y ∷ ys) r s hx (hy, _) h = absurd (omega (arith, head_of h))
  where
    head_of : ◌≡◌ {A = Bytes} (b'-' ∷ r) (y ∷ (ys ++ (b'-' ∷ s))) → b'-' ≡ y
    head_of p = cc p
same_at_dash (x ∷ xs) [] r s (hx, _) hy h = absurd (omega (arith, head_of h))
  where
    head_of : ◌≡◌ {A = Bytes} (x ∷ (xs ++ (b'-' ∷ r))) (b'-' ∷ s) → x ≡ b'-'
    head_of p = cc p
same_at_dash (x ∷ xs) (y ∷ ys) r s (_, hx) (_, hy) h =
    let (tails, rests) = same_at_dash xs ys r s hx hy (cc h) in (cc (h, tails), rests)

-- Two texts whose first parts have the same length.
same_parts : (xs ys r s : Bytes) → length xs ≡ length ys → xs ++ r ≡ ys ++ s → (xs ≡ ys) × (r ≡ s)
same_parts [] [] r s l h = (refl, h)
same_parts [] (y ∷ ys) r s l h = absurd (omega (arith, l))
same_parts (x ∷ xs) [] r s l h = absurd (omega (arith, l))
same_parts (x ∷ xs) (y ∷ ys) r s l h =
    let (tails, rests) = same_parts xs ys r s (omega (arith, l)) (cc h) in (cc (h, tails), rests)

-- A key spells its token identifier and its nonce.
pub key-inj :
    (c : Core) (token token' : Bytes) (n n' : ℕ)
    → Named token
    → Named token'
    → compute_dcdt_nft_token_key (dcdt_token_key c token) n
      ≡ compute_dcdt_nft_token_key (dcdt_token_key c token') n'
    → (token ≡ token') × (n ≡ n')
unfolding compute_dcdt_nft_token_key
key-inj c token token' n n' m m' h =
    let (_, after_prefix) =
      same_parts (base_dcdt_key_prefix c) (base_dcdt_key_prefix c) (token ++ nat_bytes n)
        (token' ++ nat_bytes n') refl
        (sym (append_assoc (base_dcdt_key_prefix c) token (nat_bytes n))
          ∙ h
          ∙ append_assoc (base_dcdt_key_prefix c) token' (nat_bytes n')) in
    let (tickers, after_dash) =
      same_at_dash m.ticker m'.ticker (m.random ++ nat_bytes n) (m'.random ++ nat_bytes n')
        m.ticker_chars m'.ticker_chars
        (spelled token n m ∙ after_prefix ∙ sym (spelled token' n' m')) in
    let (randoms, nonces) =
      same_parts m.random m'.random (nat_bytes n) (nat_bytes n')
        (m.random_length ∙ sym m'.random_length) after_dash in
    (
      m.parts
          ∙ ap (λ t. t ++ (b'-' ∷ m.random)) tickers
          ∙ ap (λ r. m'.ticker ++ (b'-' ∷ r)) randoms
          ∙ sym m'.parts,
      sym (set_bytes-nat_bytes n) ∙ ap set_bytes nonces ∙ set_bytes-nat_bytes n',
    )
  where
    spelled :
        (t : Bytes) (k : ℕ) (m : Named t)
        → m.ticker ++ (b'-' ∷ (m.random ++ nat_bytes k)) ≡ t ++ nat_bytes k
    spelled t k m =
        sym (
          ap (λ x. x ++ nat_bytes k) m.parts
          ∙ append_assoc m.ticker (b'-' ∷ m.random) (nat_bytes k))

module _ {A D : Type 0} (e : Env A D) where
  -- What an account holds of a token identifier with a nonce.
  abbrev pub quantity : World A D → ℕ → Bytes → ℕ → ℤ
  quantity w p token n = held e w p (compute_dcdt_nft_token_key (dcdt_token_key e.core token) n)

  -- Between two worlds one quantity has become a value, and no other quantity of a well-formed token
  -- identifier has changed: not on another account, not of another token, and not of another nonce.
  pub record Becomes (p : ℕ) (token : Bytes) (n : ℕ) (value : ℤ) (w w' : World A D) : Type 0 where
    pub now : quantity w' p token n ≡ value
    pub others :
        (q : ℕ) (token' : Bytes) (n' : ℕ)
        → Named token'
        → (q ≢ p) ⊎ ((token' ≢ token) ⊎ (n' ≢ n))
        → quantity w' q token' n' ≡ quantity w q token' n'

  -- No quantity has changed.
  abbrev pub KeepsQuantities : World A D → World A D → Type 0
  KeepsQuantities w w' =
      (q : ℕ) (token : Bytes) (n : ℕ) → quantity w' q token n ≡ quantity w q token n

  -- A storage as a map from an account, a token identifier and a nonce to a quantity: what it reads is
  -- the quantity, and where there is one it reads it, unless the metadata of the token fail; what it saves of a well-formed identifier is the quantity afterwards, and no other
  -- has changed; and neither the liquidity nor a mark of the shards changes one.
  pub record IsTokenMap (s : StorageHandler (World A D)) : Type 0 where
    pub reads :
        (w : World A D) (p : ℕ) (token : Bytes) (n : ℕ) (t : DigitalToken)
        → s.get_dcdt_nft_token_on_sender w p (dcdt_token_key e.core token) n ≡ ok t
        → quantity w p token n ≡ t.value
    pub finds :
        (w : World A D) (p : ℕ) (token : Bytes) (n : ℕ)
        → quantity w p token n ≢ pos 0
        → ((t : DigitalToken) × (s.get_dcdt_nft_token_on_sender w p (dcdt_token_key e.core token) n
              ≡ ok t))
          ⊎ MetaDataFails e w (compute_dcdt_nft_token_key (dcdt_token_key e.core token) n) n
    pub saves :
        (a : Bytes) (p : ℕ) (token : Bytes) (n : ℕ) (t : DigitalToken) (must ret : Bool)
        (w : World A D) (b : Bytes)
        → Named token
        → (s.save_dcdt_nft_token a p (dcdt_token_key e.core token) n t must ret w).0 ≡ ok b
        → is_negative t.value ≡ false
        → Becomes p token n t.value w
            (s.save_dcdt_nft_token a p (dcdt_token_key e.core token) n t must ret w).1
    pub sent :
        (k : Bytes) (n : ℕ) (a : Bytes) (w : World A D)
        → KeepsQuantities w (s.was_already_sent k n a w).1
    pub liquidity :
        (k : Bytes) (n : ℕ) (v : ℤ) (w : World A D)
        → KeepsQuantities w (s.add_to_liquidity_system_acc k n v w).1

  other_key :
      (p q : ℕ) (token token' : Bytes) (n n' : ℕ)
      → Named token
      → Named token'
      → (q ≢ p) ⊎ ((token' ≢ token) ⊎ (n' ≢ n))
      → (q ≢ p)
        ⊎ (compute_dcdt_nft_token_key (dcdt_token_key e.core token') n'
            ≢ compute_dcdt_nft_token_key (dcdt_token_key e.core token) n)
  other_key p q token token' n n' m m' (inl account) = inl account
  other_key p q token token' n n' m m' (inr (inl tokens)) =
      inr (λ h. tokens (key-inj e.core token' token n' n m' m h).0)
  other_key p q token token' n n' m m' (inr (inr nonces)) =
      inr (λ h. nonces (key-inj e.core token' token n' n m' m h).1)

  same_quantities : (w w' : World A D) → w'.accounts ≡ w.accounts → KeepsQuantities w w'
  same_quantities w w' same q token n =
      let key = compute_dcdt_nft_token_key (dcdt_token_key e.core token) n in
      ap (λ (accs : ℕ → A). value_of e (get_dcdt_data_from_key e (accs q) key)) same

  saved-Becomes :
      (p : ℕ) (token : Bytes) (n : ℕ) (value : ℤ) (w w' : World A D)
      → Named token
      → Holds e p (compute_dcdt_nft_token_key (dcdt_token_key e.core token) n) value w w'
      → Becomes p token n value w w'
  saved-Becomes p token n value w w' m holds = record {
    now = holds.now;
    others = λ q token' n' m' o. ap (value_of e) (
        holds.others q (compute_dcdt_nft_token_key (dcdt_token_key e.core token') n')
          (other_key p q token token' n n' m m' o));
  }

  -- Over a data trie and a marshaller that behave as documented, and whatever the settings, the
  -- storage of dcdtDataStorage is a map from an account, a token identifier and a nonce to a
  -- quantity. A token that it reads has that quantity, and a token whose quantity is not 0 is read,
  -- unless it has a nonce and its metadata cannot be read of the system account. A save that succeeds, of a token whose
  -- identifier is well-formed and whose value is not negative, makes the value the quantity under
  -- that account, identifier and nonce, and changes no quantity of a well-formed identifier under
  -- another account, identifier or nonce. Changes of the liquidity and marks of the shards, whatever
  -- their result, change no quantity.
  pub storage_handler-IsTokenMap :
      (store : IsStore e) (marshaller : IsMarshaller e) (settings : SettingsHandler (World A D))
      → IsTokenMap (storage_handler e settings)
  unfolding storage_handler
  storage_handler-IsTokenMap store marshaller settings =
      let s = storage_handler e settings in
      let laws = storage_handler-IsTokenStorage e store marshaller settings in
      record {
        reads = λ w p token n t h. laws.reads_held w p (dcdt_token_key e.core token) n t h;
        finds = λ w p token n h. held_is_read e w p (dcdt_token_key e.core token) n h;
        saves = λ a p token n t must ret w b m h covered.
            let key = dcdt_token_key e.core token in
            saved-Becomes p token n t.value w (s.save_dcdt_nft_token a p key n t must ret w).1 m
              (laws.saves a p key n t must ret w b h covered);
        sent = λ k n a w.
            same_quantities w (s.was_already_sent k n a w).1 (laws.keeps_accounts_sent k n a w);
        liquidity = λ k n v w.
            same_quantities w (s.add_to_liquidity_system_acc k n v w).1
              (laws.keeps_accounts k n v w);
      }
