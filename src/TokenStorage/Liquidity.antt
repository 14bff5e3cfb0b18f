-- ===== src/TokenStorage/Liquidity.antt =====
-- What a change of the liquidity leaves on the system account.
use k_chain_vm_common_go.Common.{
  ℕ, ◌≡◌, ◌≢◌, refl, sym, ◌∙◌, ap, inl, inr, Bool, true, false, ◌&&◌, [], Option, some, Bytes,
  arith, ◌==◌, if◌then◌else◌, length, Bool-cases,
}
use k_chain_vm_common_go.Common.Int.{ℤ, pos, ◌+ℤ◌}
use k_chain_vm_common_go.Errors.{Result, ok, Result-cases}
use k_chain_vm_common_go.Exec.{pure, reads, ◌>>=◌, bind-ok, then_pure-ok}
use k_chain_vm_common_go.Vm.{DigitalToken}
use k_chain_vm_common_go.Env.{
  Env, World, save_to_system_account_flag, send_always_flag, fix_old_token_liquidity_flag,
}
use k_chain_vm_common_go.Env.Laws.{IsStore, IsMarshaller, IsAdapter}
use k_chain_vm_common_go.Balance.{is_zero, is_negative}
use k_chain_vm_common_go.TokenStorage.{
  compute_dcdt_nft_token_key, default_query_options, load_system_account,
  get_dcdt_digital_token_data_from_system_account, save_and_persist, marshal_and_save_data,
}
use k_chain_vm_common_go.TokenStorage.Saving.{
  change_liquidity, add_to_found, add_to_liquidity_system_acc,
}
use k_chain_vm_common_go.TokenStorage.System.{
  system_token_at, get_data_of, save_and_persist-tokens, marshal_and_save_data-tokens,
}

module _ {A D : Type 0} (e : Env A D) where
  -- The liquidity of a token that was read; where there is none it is 0.
  abbrev pub liquidity_of : Result (Option DigitalToken) → ℤ
  liquidity_of (ok (some t)) = t.value
  liquidity_of _ = pos 0

  -- The liquidity that the system account records under a key.
  abbrev pub liquidity : World A D → Bytes → ℤ
  liquidity w key = liquidity_of (system_token_at e w key)

  -- What a change of the liquidity by a value that succeeds has done between two worlds.
  pub record Recorded (key : Bytes) (value : ℤ) (w w' : World A D) : Type 0 where
    pub sum : liquidity w' key ≡ liquidity w key +ℤ value
    pub covered : is_negative (liquidity w' key) ≡ false
    pub others : (j : Bytes) → j ≢ key → system_token_at e w' j ≡ system_token_at e w j
    pub same_accounts : w'.accounts ≡ w.accounts

  module _ (store : IsStore e) (marshaller : IsMarshaller e) (adapter : IsAdapter e) where
    change_liquidity-Recorded :
        (value : ℤ) (a : A) (key : Bytes) (t : DigitalToken) (w : World A D)
        → load_system_account e w ≡ ok a
        → system_token_at e w key ≡ ok (some t)
        → (change_liquidity e value a key t w).0 ≡ ok tt
        → Recorded key value w (change_liquidity e value a key t w).1
    change_liquidity-Recorded value a key t w loads found h =
        elim (Bool-cases (is_negative (t.value +ℤ value))) [
          | inl negative ↦ absurd (cc (rw negative at h))
          | inr covered ↦ rw covered (elim (Bool-cases (is_zero (t.value +ℤ value))) [
            | inl empty ↦ rw empty (emptied empty (rw (covered, empty) at h))
            | inr kept ↦ rw kept (changed covered (rw (covered, kept) at h))
          ])
        ]
      where
        zero_of : (n : ℤ) → is_zero n ≡ true → pos 0 ≡ n
        zero_of n z = ground arith

        emptied :
            is_zero (t.value +ℤ value) ≡ true
            → ((save_and_persist e a key [] >>= λ _. pure tt) w).0 ≡ ok tt
            → Recorded key value w ((save_and_persist e a key [] >>= λ _. pure tt) w).1
        emptied empty done =
            let ((a', saved), same) = then_pure-ok (save_and_persist e a key []) tt tt w done in
            let (now, others, accounts) =
              save_and_persist-tokens e store adapter w a a' key [] loads saved in
            rw same (record {
              sum =
                  ap liquidity_of now
                  ∙ zero_of (t.value +ℤ value) empty
                  ∙ ap (λ r. liquidity_of r +ℤ value) (sym found);
              covered = ap (λ r. is_negative (liquidity_of r)) now;
              others = others;
              same_accounts = accounts;
            })

        changed :
            is_negative (t.value +ℤ value) ≡ false
            → let t' : DigitalToken = record t { value = t.value +ℤ value } in
              ((marshal_and_save_data e a t' key >>= λ _. pure tt) w).0 ≡ ok tt
              → Recorded key value w ((marshal_and_save_data e a t' key >>= λ _. pure tt) w).1
        changed covered done =
            let t' : DigitalToken = record t { value = t.value +ℤ value } in
            let ((a', saved), same) =
              then_pure-ok (marshal_and_save_data e a t' key) tt tt w done in
            let (now, others, accounts) =
              marshal_and_save_data-tokens e store adapter marshaller w a a' t' key loads saved in
            rw same (record {
              sum = ap liquidity_of now ∙ ap (λ r. liquidity_of r +ℤ value) (sym found);
              covered = ap (λ r. is_negative (liquidity_of r)) now ∙ covered;
              others = others;
              same_accounts = accounts;
            })

    -- The change goes on to the token that was found.
    go_on :
        (dcdt_token_key : Bytes) (nonce : ℕ) (value : ℤ) (w : World A D) (t : DigitalToken) (a : A)
        → e.is_flag_enabled save_to_system_account_flag ≡ true
        → e.is_flag_enabled send_always_flag ≡ true
        → nonce ≢ 0
        → load_system_account e w ≡ ok a
        → let key = compute_dcdt_nft_token_key dcdt_token_key nonce in
          system_token_at e w key ≡ ok (some t)
          → t.reserved ≢ []
          → is_zero t.value && is_negative value ≡ false
          → add_to_liquidity_system_acc e dcdt_token_key nonce value w
            ≡ change_liquidity e value a key t w
    unfolding add_to_liquidity_system_acc
    go_on dcdt_token_key nonce value w t a save always some_nonce loads found new_kind not_old =
        let key = compute_dcdt_nft_token_key dcdt_token_key nonce in
        let no_zero : (nonce == 0) ≡ false = ground arith in
        let kept : (length t.reserved == 0) ≡ false = ground arith in
        let to_found : add_to_found e value a key (some t) w ≡ change_liquidity e value a key t w =
          rw kept (old (e.is_flag_enabled fix_old_token_liquidity_flag)) in
        rw (save, always, no_zero)
          (bind-ok
              (reads (get_dcdt_digital_token_data_from_system_account e key default_query_options))
              (λ r. add_to_found e value r.1 key r.0) w (some t, a)
              (get_data_of e w key (some t) a loads found)
            ∙ to_found)
      where
        old :
            (fix : Bool)
            → (if fix && is_zero t.value && is_negative value
                  then (marshal_and_save_data e a
                        (record t { reserved = [] })
                        (compute_dcdt_nft_token_key dcdt_token_key nonce)
                      >>= λ _. pure tt)
                  else change_liquidity e value a
                      (compute_dcdt_nft_token_key dcdt_token_key nonce)
                      t)
                w
              ≡ change_liquidity e value a (compute_dcdt_nft_token_key dcdt_token_key nonce) t w
        old true = rw not_old refl
        old false = refl

    -- Where the system account keeps the metadata and the liquidity of all tokens, a change of the
    -- liquidity of a token with a nonce and of the new kind that succeeds, and that is not a decrease
    -- from 0 of an old token, adds the value, leaves no negative liquidity, and changes neither any
    -- other token of the system account nor any account.
    pub add_to_liquidity_effect :
        (dcdt_token_key : Bytes) (nonce : ℕ) (value : ℤ) (w : World A D) (t : DigitalToken)
        → e.is_flag_enabled save_to_system_account_flag ≡ true
        → e.is_flag_enabled send_always_flag ≡ true
        → nonce ≢ 0
        → let key = compute_dcdt_nft_token_key dcdt_token_key nonce in
          system_token_at e w key ≡ ok (some t)
          → t.reserved ≢ []
          → is_zero t.value && is_negative value ≡ false
          → (add_to_liquidity_system_acc e dcdt_token_key nonce value w).0 ≡ ok tt
          → Recorded key value w (add_to_liquidity_system_acc e dcdt_token_key nonce value w).1
    add_to_liquidity_effect dcdt_token_key nonce value w t save always some_nonce found new_kind
          not_old h =
        let key = compute_dcdt_nft_token_key dcdt_token_key nonce in
        elim (Result-cases (load_system_account e w)) [
          | inl (a, loads) ↦
              let step =
                go_on dcdt_token_key nonce value w t a save always some_nonce loads found new_kind
                  not_old in
              rw step (change_liquidity-Recorded value a key t w loads found (rw step at h))
          | inr (x, fails) ↦ absurd (ground arith)
        ]
