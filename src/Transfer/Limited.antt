-- ===== src/Transfer/Limited.antt =====
-- Tokens whose transfer is limited to those who have a role.
use k_chain_vm_common_go.Common.{
  ℕ, ◌≡◌, ◌⊎◌, inl, inr, true, false, List, ◌∷◌, Option, some, Bytes, arith, Bool-cases,
}
use k_chain_vm_common_go.Errors.{ok, Result-cases}
use k_chain_vm_common_go.Vm.{ContractCallInput, VmOutput}
use k_chain_vm_common_go.Env.{
  Env, World, dcdt_token_key, check_correct_token_id_for_transfer_role_flag,
}
use k_chain_vm_common_go.Transfer.{
  TransferFunction, check_limited_transfer, check_transfer, process_transfer,
}

module _ {A D : Type 0} (e : Env A D) (f : TransferFunction (World A D)) where
  -- Who may move a token of limited transfer: the sender or the destination, by its address or by
  -- its role.
  abbrev pub HasTransferRole : World A D → Bytes → ContractCallInput → ℕ → Option ℕ → Type 0
  HasTransferRole w token_id i snd acnt_dst =
      (f.settings.is_sender_or_destination_with_transfer_role w i.caller_addr i.recipient_addr
          token_id
        ≡ true)
      ⊎ (f.roles.check_allowed_to_execute w (some snd) token_id e.dcdt_role_transfer ≡ ok tt)
      ⊎ (f.roles.check_allowed_to_execute w acnt_dst token_id e.dcdt_role_transfer ≡ ok tt)

  limited :
      (token_id key : Bytes) (i : ContractCallInput) (snd : ℕ) (acnt_dst : Option ℕ) (w : World A D)
      → f.settings.is_limited_transfer w key ≡ true
      → check_limited_transfer e f token_id key i.caller_addr i.recipient_addr
          (some snd)
          acnt_dst
          false
          w
        ≡ ok tt
      → HasTransferRole w token_id i snd acnt_dst
  unfolding check_limited_transfer
  limited token_id key i snd acnt_dst w limits h =
      elim (Bool-cases (
        f.settings.is_sender_or_destination_with_transfer_role w i.caller_addr i.recipient_addr
          token_id)) [
            | inl known ↦ inl known
            | inr unknown ↦
                elim (Result-cases
                  (f.roles.check_allowed_to_execute w (some snd) token_id e.dcdt_role_transfer)) [
                    | inl (_, allowed) ↦ inr (inl allowed)
                    | inr (x, refused) ↦ inr (inr (ground arith))
                  ]
          ]

  checked :
      (snd : ℕ) (acnt_dst : Option ℕ) (i : ContractCallInput) (token_id vb : Bytes)
      (rest : List Bytes) (w : World A D) (out : VmOutput)
      → i.arguments ≡ token_id ∷ vb ∷ rest
      → e.is_flag_enabled check_correct_token_id_for_transfer_role_flag ≡ true
      → (process_transfer e f (some snd) acnt_dst (some i) w).0 ≡ ok out
      → check_limited_transfer e f token_id
          (dcdt_token_key e.core token_id)
          i.caller_addr
          i.recipient_addr
          (some snd)
          acnt_dst
          i.return_call_after_error
          w
        ≡ ok tt
  unfolding process_transfer check_transfer
  checked snd acnt_dst i token_id vb rest w out args on h = ground arith

  -- Where the role of a transfer is looked up by token identifier, a transfer from an account in
  -- this shard of a token of limited transfer, not on the way back from an error, succeeds only if
  -- the sender or the destination has the transfer role, by address or by account.
  pub limited_transfer_needs_role :
      (snd : ℕ) (acnt_dst : Option ℕ) (i : ContractCallInput) (token_id vb : Bytes)
      (rest : List Bytes) (w : World A D) (out : VmOutput)
      → i.arguments ≡ token_id ∷ vb ∷ rest
      → e.is_flag_enabled check_correct_token_id_for_transfer_role_flag ≡ true
      → f.settings.is_limited_transfer w (dcdt_token_key e.core token_id) ≡ true
      → i.return_call_after_error ≡ false
      → (process_transfer e f (some snd) acnt_dst (some i) w).0 ≡ ok out
      → HasTransferRole w token_id i snd acnt_dst
  limited_transfer_needs_role snd acnt_dst i token_id vb rest w out args on limits plain h =
      limited token_id (dcdt_token_key e.core token_id) i snd acnt_dst w limits
        (rw plain at (checked snd acnt_dst i token_id vb rest w out args on h))
