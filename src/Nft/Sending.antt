-- ===== src/Nft/Sending.antt =====
-- What a transfer to another shard does to the sender's holdings.
use k_chain_vm_common_go.Common.{
  ℕ, ◌≡◌, ◌≢◌, refl, sym, ◌∙◌, ap, inl, inr, false, List, ◌∷◌, Option, none, some, Bytes, arith,
  bytes_equal_iff, ◌==◌,
}
use k_chain_vm_common_go.Common.Int.{pos, ◌-ℤ◌}
use k_chain_vm_common_go.Numbers.{set_bytes, to_u64, sub_u64}
use k_chain_vm_common_go.Errors.{ok_ne_err, Error, Result-cases, ok, err}
use k_chain_vm_common_go.Exec.{Exec, pure, ◌>>=◌, bind-inv, bind-ok}
use k_chain_vm_common_go.Vm.{ContractCallInput, VmOutput, DigitalToken}
use k_chain_vm_common_go.Env.{Env, World, dcdt_token_key}
use k_chain_vm_common_go.Logs.{new_output}
use k_chain_vm_common_go.Local.{check_basic_dcdt_arguments}
use k_chain_vm_common_go.Balance.{is_negative}
use k_chain_vm_common_go.Balance.Held.{held}
use k_chain_vm_common_go.TokenStorage.{compute_dcdt_nft_token_key}
use k_chain_vm_common_go.TokenStorage.Accounts.{KeepsAccounts, bind-KeepsAccounts}
use k_chain_vm_common_go.TokenStorage.Contract.{Holds, Holds-same_accounts, IsTokenStorage}
use k_chain_vm_common_go.Nft.Transfer.{
  NftTransferFunction, check_nft_transfer, move_to_destination, create_nft_output_transfers,
  call_after, finish_nft_transfer, send_nft, process_nft_transfer_on_sender_shard,
  process_nft_transfer,
}

module _ {A D : Type 0} (e : Env A D) (f : NftTransferFunction (World A D)) where
  transfer_checked :
      (p : ℕ) (i : ContractCallInput) (token_id nb qb dst : Bytes) (rest : List Bytes)
      (w : World A D) (p' : ℕ) (d k : Bytes) (n : ℕ) (t : DigitalToken) (q : ℕ)
      → i.arguments ≡ token_id ∷ nb ∷ qb ∷ dst ∷ rest
      → (check_nft_transfer e f (some p) i w).0 ≡ ok (p', d, k, n, t, q)
      → (p' ≡ p)
        × (d ≡ dst)
        × (k ≡ token_id)
        × (n ≡ to_u64 (set_bytes nb))
        × (q ≡ set_bytes qb)
        × ((check_nft_transfer e f (some p) i w).1 ≡ w)
        × (f.storage.get_dcdt_nft_token_on_sender w p
              (dcdt_token_key e.core token_id)
              (to_u64 (set_bytes nb))
            ≡ ok t)
        × (is_negative (t.value -ℤ pos (set_bytes qb)) ≡ false)
        × (n ≢ 0)
        × (dst ≢ i.caller_addr)
  unfolding check_nft_transfer
  transfer_checked p i token_id nb qb dst rest w p' d k n t q args h =
      ground (arith, bytes_equal_iff dst i.caller_addr)

  module _ (laws : IsTokenStorage e f.storage) where
    create_output-KeepsAccounts :
        (i : ContractCallInput) (t : DigitalToken) (dst token_id : Bytes) (n : ℕ) (out : VmOutput)
        → KeepsAccounts (create_nft_output_transfers e f i t dst token_id n out)
    unfolding create_nft_output_transfers call_after
    create_output-KeepsAccounts i t dst token_id n out w =
        ground (arith, laws.keeps_accounts_sent token_id n dst w)

    finish-KeepsAccounts :
        (i : ContractCallInput) (p : ℕ) (o : Option ℕ) (t : DigitalToken) (dst token_id : Bytes)
        (n q : ℕ)
        → KeepsAccounts (finish_nft_transfer e f i p o t dst token_id n q)
    unfolding finish_nft_transfer
    finish-KeepsAccounts i p o t dst token_id n q w = ground (
      arith,
      create_output-KeepsAccounts i t dst token_id n
          (new_output (sub_u64 i.gas_provided f.func_gas_cost)) w,
    )

    move-KeepsAccounts :
        (fresh : ℕ) (i : ContractCallInput) (dst key : Bytes) (n : ℕ) (t : DigitalToken) (q : ℕ)
        → (e.self_id == e.compute_id dst) ≡ false
        → KeepsAccounts (move_to_destination e f fresh i dst key n t q)
    unfolding move_to_destination
    move-KeepsAccounts fresh i dst key n t q away = rw away (
        bind-KeepsAccounts (f.storage.add_to_liquidity_system_acc key n (pos 0 -ℤ pos q))
          (λ _. pure (none, t)) (laws.keeps_accounts key n (pos 0 -ℤ pos q)) (λ b w. refl))

    send_nft-Holds :
        (fresh : ℕ) (i : ContractCallInput) (p : ℕ) (dst token_id : Bytes) (n : ℕ)
        (t : DigitalToken) (q : ℕ) (w : World A D) (out : VmOutput)
        → (e.self_id == e.compute_id dst) ≡ false
        → (send_nft e f fresh i p dst token_id n t q w).0 ≡ ok out
        → is_negative (t.value -ℤ pos q) ≡ false
        → Holds e p
            (compute_dcdt_nft_token_key (dcdt_token_key e.core token_id) n)
            (t.value -ℤ pos q)
            w
            (send_nft e f fresh i p dst token_id n t q w).1
    unfolding send_nft
    send_nft-Holds fresh i p dst token_id n t q w out away h covered =
        let k = dcdt_token_key e.core token_id in
        let t' : DigitalToken = record t { value = t.value -ℤ pos q } in
        let moved : DigitalToken = record t { value = pos q } in
        let a = e.address_bytes (w.accounts p) in
        let save = f.storage.save_dcdt_nft_token a p k n t' false i.return_call_after_error in
        let move = move_to_destination e f fresh i dst k n moved q in
        let finish : Option ℕ × DigitalToken → Exec (World A D) VmOutput =
          λ r. finish_nft_transfer e f i p r.0 r.1 dst token_id n q in
        let (b, saved, s1) = bind-inv save (λ _. move >>= finish) w out h in
        let v = (save w).1 in
        let same =
          bind-KeepsAccounts move finish (move-KeepsAccounts fresh i dst k n moved q away)
            (λ r. finish-KeepsAccounts i p r.0 r.1 dst token_id n q) v in
        let holds = laws.saves a p k n t' false i.return_call_after_error w b saved covered in
        rw s1 (
          Holds-same_accounts e p (compute_dcdt_nft_token_key k n) (t.value -ℤ pos q) w v
            ((move >>= finish) v).1 same holds)

    went_on :
        (fresh p : ℕ) (i : ContractCallInput) (token_id nb qb dst : Bytes) (rest : List Bytes)
        (w : World A D) (p' : ℕ) (d k : Bytes) (n : ℕ) (t : DigitalToken) (q : ℕ)
        → i.arguments ≡ token_id ∷ nb ∷ qb ∷ dst ∷ rest
        → (check_nft_transfer e f (some p) i w).0 ≡ ok (p', d, k, n, t, q)
        → process_nft_transfer_on_sender_shard e f fresh (some p) i w
          ≡ send_nft e f fresh i p dst token_id (to_u64 (set_bytes nb)) t (set_bytes qb) w
    unfolding process_nft_transfer_on_sender_shard
    went_on fresh p i token_id nb qb dst rest w p' d k n t q args checked =
        let (p_eq, d_eq, k_eq, n_eq, q_eq, same, _, _, _, _) =
          transfer_checked p i token_id nb qb dst rest w p' d k n t q args checked in
        bind-ok (check_nft_transfer e f (some p) i)
          (λ r. send_nft e f fresh i r.0 r.1 r.2 r.3 r.4 r.5) w (p', d, k, n, t, q) checked
        ∙ rw (p_eq, d_eq, k_eq, n_eq, q_eq, same) refl

    refused :
        (fresh p : ℕ) (i : ContractCallInput) (w : World A D) (x : Error)
        → (check_nft_transfer e f (some p) i w).0 ≡ err x
        → (process_nft_transfer_on_sender_shard e f fresh (some p) i w).0 ≡ err x
    unfolding process_nft_transfer_on_sender_shard
    refused fresh p i w x h = ground arith

    on_sender_shard :
        (fresh p : ℕ) (o : Option ℕ) (i : ContractCallInput) (w : World A D) (out : VmOutput)
        → i.caller_addr ≡ i.recipient_addr
        → (process_nft_transfer e f fresh (some p) o (some i) w).0 ≡ ok out
        → process_nft_transfer e f fresh (some p) o (some i) w
          ≡ process_nft_transfer_on_sender_shard e f fresh (some p) i w
    unfolding process_nft_transfer check_basic_dcdt_arguments
    on_sender_shard fresh p o i w out own h =
        ground (arith, bytes_equal_iff i.caller_addr i.recipient_addr)

    -- A transfer of an account on itself that succeeds, to an address in another shard, is not to its
    -- own address, and of a nonce that is not 0; it takes exactly the quantity of its third argument
    -- from what the account holds of the token with that nonce, which was as much, and changes no
    -- other token of this shard's accounts.
    pub nft_transfer_out :
        (fresh p : ℕ) (o : Option ℕ) (i : ContractCallInput) (token_id nb qb dst : Bytes)
        (rest : List Bytes) (w : World A D) (out : VmOutput)
        → i.arguments ≡ token_id ∷ nb ∷ qb ∷ dst ∷ rest
        → i.caller_addr ≡ i.recipient_addr
        → e.self_id ≢ e.compute_id dst
        → (process_nft_transfer e f fresh (some p) o (some i) w).0 ≡ ok out
        → let n = to_u64 (set_bytes nb) in
          let key = compute_dcdt_nft_token_key (dcdt_token_key e.core token_id) n in
          let left = held e w p key -ℤ pos (set_bytes qb) in
          (dst ≢ i.caller_addr)
          × (n ≢ 0)
          × (is_negative left ≡ false)
          × Holds e p key left w (process_nft_transfer e f fresh (some p) o (some i) w).1
    nft_transfer_out fresh p o i token_id nb qb dst rest w out args own away h =
        let step = on_sender_shard fresh p o i w out own h in
        let done = ap (λ r. r.0) (sym step) ∙ h in
        elim (Result-cases (check_nft_transfer e f (some p) i w).0) [
          | inl ((p', d, k, n', t, q), checked) ↦
              let n = to_u64 (set_bytes nb) in
              let (_, _, _, n_eq, _, _, read, covered, some_nonce, other) =
                transfer_checked p i token_id nb qb dst rest w p' d k n' t q args checked in
              let went = went_on fresh p i token_id nb qb dst rest w p' d k n' t q args checked in
              let had = laws.reads_held w p (dcdt_token_key e.core token_id) n t read in
              let elsewhere : (e.self_id == e.compute_id dst) ≡ false = ground arith in
              let holds =
                send_nft-Holds fresh i p dst token_id n t (set_bytes qb) w out elsewhere
                  (ap (λ r. r.0) (sym went) ∙ done) covered in
              (other, λ z. some_nonce (n_eq ∙ z), rw had covered, rw (had, step, went) holds)
          | inr (x, fails) ↦ absurd (ok_ne_err (sym done ∙ refused fresh p i w x fails))
        ]
