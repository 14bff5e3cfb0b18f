-- ===== src/Transfer/Effect.antt =====
-- What a transfer does to the balances.
use k_chain_vm_common_go.Common.{
  ℕ, ◌<◌, ◌≡◌, ◌≢◌, sym, ◌∙◌, ap, ◌⊎◌, inl, inr, false, List, ◌∷◌, some, Bytes, arith,
}
use k_chain_vm_common_go.Common.Int.{ℤ, pos, ◌+ℤ◌, ◌-ℤ◌, ◌≤ℤ◌, int_laws}
use k_chain_vm_common_go.Numbers.{set_bytes}
use k_chain_vm_common_go.Errors.{ok}
use k_chain_vm_common_go.Vm.{ContractCallInput, VmOutput}
use k_chain_vm_common_go.Env.{Env, World, dcdt_token_key}
use k_chain_vm_common_go.Env.Laws.{IsStore, IsMarshaller}
use k_chain_vm_common_go.Balance.{is_negative, add_to_dcdt_balance}
use k_chain_vm_common_go.Balance.Storage.{token_at}
use k_chain_vm_common_go.Balance.Update.{Credited, add_to_dcdt_balance-Credited}
use k_chain_vm_common_go.Balance.Held.{held, value_of, held-Credited}
use k_chain_vm_common_go.Logs.{compute_gas_remaining}
use k_chain_vm_common_go.Transfer.{TransferFunction, debit_sender, process_transfer}
use k_chain_vm_common_go.Transfer.Steps.{process_transfer_steps, credit_destination_steps}

minus : (a b : ℤ) → a +ℤ (pos 0 -ℤ b) ≡ a -ℤ b
minus a b = omega int_laws

back : (a b : ℤ) → a +ℤ (pos 0 -ℤ b) +ℤ b ≡ a
back a b = omega int_laws

covers : (a b : ℤ) → is_negative (a +ℤ (pos 0 -ℤ b)) ≡ false → b ≤ℤ a
unfolding ◌+ℤ◌ ◌-ℤ◌
covers a b h = ground arith

module _ {A D : Type 0} (e : Env A D) (f : TransferFunction (World A D)) (store : IsStore e)
    (marshaller : IsMarshaller e) where
  within_gas :
      (snd : ℕ) (i : ContractCallInput) (key : Bytes) (v : ℕ) (w : World A D)
      → (debit_sender e f (some snd) i key v w).0 ≡ ok tt
      → debit_sender e f (some snd) i key v w
        ≡ add_to_dcdt_balance e snd key (pos 0 -ℤ pos v) f.settings i.return_call_after_error w
  unfolding debit_sender
  within_gas snd i key v w h = ground arith

  pub debit-Credited :
      (snd : ℕ) (i : ContractCallInput) (key : Bytes) (v : ℕ) (w : World A D)
      → (debit_sender e f (some snd) i key v w).0 ≡ ok tt
      → Credited e snd key (pos 0 -ℤ pos v) w (debit_sender e f (some snd) i key v w).1
  debit-Credited snd i key v w h = rw (within_gas snd i key v w h) (
      add_to_dcdt_balance-Credited e store marshaller f.settings snd key (pos 0 -ℤ pos v)
        i.return_call_after_error w (rw (within_gas snd i key v w h) at h))

  -- The two changes that a transfer within one shard makes, one after the other.
  moves :
      (snd dst : ℕ) (i : ContractCallInput) (token_id vb : Bytes) (rest : List Bytes)
      (w : World A D) (out : VmOutput)
      → i.arguments ≡ token_id ∷ vb ∷ rest
      → (process_transfer e f (some snd) (some dst) (some i) w).0 ≡ ok out
      → let key = dcdt_token_key e.core token_id in
        (mid : World A D) × (0 < set_bytes vb)
        × Credited e snd key (pos 0 -ℤ pos (set_bytes vb)) w mid
        × Credited e dst key
            (pos (set_bytes vb))
            mid
            (process_transfer e f (some snd) (some dst) (some i) w).1
  moves snd dst i token_id vb rest w out args h =
      let key = dcdt_token_key e.core token_id in
      let v = set_bytes vb in
      let (positive, paid, split) =
        process_transfer_steps e f (some snd) (some dst) i token_id vb rest w out args h in
      let mid = (debit_sender e f (some snd) i key v w).1 in
      let (added, last) =
        credit_destination_steps e f (some snd) dst i token_id key v
          (compute_gas_remaining (some snd) i.gas_provided f.func_gas_cost) mid out
          (rw split at h) in
      (
        mid,
        positive,
        debit-Credited snd i key v w paid,
        rw (split, last)
            (add_to_dcdt_balance-Credited e store marshaller f.settings dst key (pos v)
              i.return_call_after_error mid added),
      )

  -- A transfer between two accounts of the shard that succeeds takes a positive value from the
  -- sender, who had as much, gives it to the destination, and changes no other balance.
  pub transfer_moves :
      (snd dst : ℕ) (i : ContractCallInput) (token_id vb : Bytes) (rest : List Bytes)
      (w : World A D) (out : VmOutput)
      → i.arguments ≡ token_id ∷ vb ∷ rest
      → (process_transfer e f (some snd) (some dst) (some i) w).0 ≡ ok out
      → snd ≢ dst
      → let key = dcdt_token_key e.core token_id in
        let w' = (process_transfer e f (some snd) (some dst) (some i) w).1 in
        let v = pos (set_bytes vb) in
        (0 < set_bytes vb)
        × (held e w' snd key ≡ held e w snd key -ℤ v)
        × (v ≤ℤ held e w snd key)
        × (held e w' dst key ≡ held e w dst key +ℤ v)
        × ((q : ℕ) (j : Bytes)
            → (q ≢ snd) × (q ≢ dst) ⊎ (j ≢ key)
            → token_at e w' q j ≡ token_at e w q j)
  transfer_moves snd dst i token_id vb rest w out args h ne =
      let key = dcdt_token_key e.core token_id in
      let v = pos (set_bytes vb) in
      let w' = (process_transfer e f (some snd) (some dst) (some i) w).1 in
      let (mid, positive, c, d) = moves snd dst i token_id vb rest w out args h in
      let (paid, covered) = held-Credited e snd key (pos 0 -ℤ v) w mid c in
      let (got, _) = held-Credited e dst key v mid w' d in
      let kept_snd = d.others snd key (inl ne) in
      let kept_dst = c.others dst key (inl (λ p. ne (sym p))) in
      (
        positive,
        ap (value_of e) kept_snd ∙ paid ∙ minus (held e w snd key) v,
        covers (held e w snd key) v (rw (← paid) covered),
        got ∙ ap (λ r. value_of e r +ℤ v) kept_dst,
        λ q j o. d.others q j (away_dst q j o) ∙ c.others q j (away_snd q j o),
      )
    where
      away_dst :
          (q : ℕ) (j : Bytes)
          → (q ≢ snd) × (q ≢ dst) ⊎ (j ≢ dcdt_token_key e.core token_id)
          → (q ≢ dst) ⊎ (j ≢ dcdt_token_key e.core token_id)
      away_dst q j (inl o) = inl o.1
      away_dst q j (inr o) = inr o

      away_snd :
          (q : ℕ) (j : Bytes)
          → (q ≢ snd) × (q ≢ dst) ⊎ (j ≢ dcdt_token_key e.core token_id)
          → (q ≢ snd) ⊎ (j ≢ dcdt_token_key e.core token_id)
      away_snd q j (inl o) = inl o.0
      away_snd q j (inr o) = inr o

  -- A transfer of an account to itself that succeeds leaves its balance, which was enough, and
  -- every other balance as it was.
  pub transfer_to_self :
      (p : ℕ) (i : ContractCallInput) (token_id vb : Bytes) (rest : List Bytes) (w : World A D)
      (out : VmOutput)
      → i.arguments ≡ token_id ∷ vb ∷ rest
      → (process_transfer e f (some p) (some p) (some i) w).0 ≡ ok out
      → let key = dcdt_token_key e.core token_id in
        let w' = (process_transfer e f (some p) (some p) (some i) w).1 in
        (held e w' p key ≡ held e w p key)
        × (pos (set_bytes vb) ≤ℤ held e w p key)
        × ((q : ℕ) (j : Bytes) → (q ≢ p) ⊎ (j ≢ key) → token_at e w' q j ≡ token_at e w q j)
  transfer_to_self p i token_id vb rest w out args h =
      let key = dcdt_token_key e.core token_id in
      let v = pos (set_bytes vb) in
      let w' = (process_transfer e f (some p) (some p) (some i) w).1 in
      let (mid, positive, c, d) = moves p p i token_id vb rest w out args h in
      let (paid, covered) = held-Credited e p key (pos 0 -ℤ v) w mid c in
      let (got, _) = held-Credited e p key v mid w' d in
      (
        got ∙ ap (λ b. b +ℤ v) paid ∙ back (held e w p key) v,
        covers (held e w p key) v (rw (← paid) covered),
        λ q j o. d.others q j o ∙ c.others q j o,
      )
