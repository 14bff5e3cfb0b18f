-- ===== src/Address/Properties.antt =====
-- What the address tests accept.
use k_chain_vm_common_go.Common.{
  ℕ, ◌≤◌, ◌<◌, ◌≡◌, refl, sym, ◌∙◌, ap, ◌↔◌, inl, inr, true, false, ◌∷◌, ◌++◌, arith, Bytes,
  bytes_equal_iff, zero, suc, Bool-cases, take-append, take-append-drop, length, take, drop,
  replicate, length-append,
}
use k_chain_vm_common_go.Env.{Core}
use k_chain_vm_common_go.Address.{
  is_empty_address, is_smart_contract_address, is_allowed_to_save_under_key,
}

take-replicate : (n m a : ℕ) → n ≤ m → take n (replicate m a) ≡ replicate n a
take-replicate zero m a h = refl
take-replicate (suc n) zero a h = absurd (omega arith)
take-replicate (suc n) (suc m) a h = ap (λ zs. a ∷ zs) (take-replicate n m a (omega arith))

take_of_empty :
    (xs : Bytes) (n : ℕ) → n ≤ length xs → is_empty_address xs ≡ true → take n xs ≡ replicate n 0
unfolding is_empty_address
take_of_empty xs n h e =
    ap (take n) ((bytes_equal_iff xs (replicate (length xs) 0)).0 e)
    ∙ take-replicate n (length xs) 0 h

is_smart_contract_address_iff :
    (a : Bytes)
    → (is_smart_contract_address a ≡ true) ↔ ((10 < length a) × (take 8 a ≡ replicate 8 0))
unfolding is_smart_contract_address
is_smart_contract_address_iff a = (
  λ h. elim (Bool-cases (is_empty_address a)) [
    | inl empty ↦ (ground arith, take_of_empty a 8 (ground arith) empty)
    | inr kept ↦ (ground arith, ground (arith, bytes_equal_iff (take 8 a) (replicate 8 0)))
  ],
  λ h. ground (arith, bytes_equal_iff (take 8 a) (replicate 8 0)),
)

pub is_allowed_to_save_under_key_iff :
    (c : Core) (key : Bytes)
    → (is_allowed_to_save_under_key c key ≡ false)
      ↔ ((rest : Bytes) × (key ≡ c.protected_key_prefix ++ rest))
unfolding is_allowed_to_save_under_key
is_allowed_to_save_under_key_iff c key =
    let p = c.protected_key_prefix in
    let n = length p in
    (
      λ h. (
        drop n key,
        sym (take-append-drop n key)
            ∙ ap (λ xs. xs ++ drop n key) (ground (arith, bytes_equal_iff (take n key) p)),
      ),
      λ (rest, e). ground (
        arith,
        bytes_equal_iff (take n key) p,
        take-append p rest,
        length-append p rest,
        ap length e,
        ap (take n) e,
      ),
    )

-- An address is a smart contract's exactly when it is longer than ten bytes and begins with eight
-- zeros. No key that begins with the protected prefix may be written, and every other key may.
pub address_tests_iff :
    (a : Bytes) (c : Core) (key : Bytes)
    → ((is_smart_contract_address a ≡ true) ↔ ((10 < length a) × (take 8 a ≡ replicate 8 0)))
      × ((is_allowed_to_save_under_key c key ≡ false)
          ↔ ((rest : Bytes) × (key ≡ c.protected_key_prefix ++ rest)))
address_tests_iff a c key =
    (is_smart_contract_address_iff a, is_allowed_to_save_under_key_iff c key)
