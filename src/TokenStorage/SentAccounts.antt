-- ===== src/TokenStorage/SentAccounts.antt =====
-- The marks of the shards that have the metadata of a token leave the accounts at hand alone.
use k_chain_vm_common_go.Common.{
  ℕ, refl, Bool, true, false, Option, none, some, Bytes, ◌==◌, not, if◌then◌else◌, ltb, set,
}
use k_chain_vm_common_go.Exec.{Exec, pure, reads, lift, ◌>>=◌}
use k_chain_vm_common_go.Vm.{DigitalToken}
use k_chain_vm_common_go.Env.{
  Env, World, dcdt_token_key, save_to_system_account_flag, send_always_flag,
}
use k_chain_vm_common_go.TokenStorage.{
  compute_dcdt_nft_token_key, exists_on_shard, get_dcdt_digital_token_data_from_system_account,
  default_query_options, marshal_and_save_data,
}
use k_chain_vm_common_go.TokenStorage.Sent.{
  byte_at, widened, mark_sent, sent_if_found, was_already_sent,
}
use k_chain_vm_common_go.TokenStorage.Accounts.{
  KeepsAccounts, bind-KeepsAccounts, marshal_and_save_data-KeepsAccounts,
}

module _ {A D : Type 0} (e : Env A D) where
  choose :
      (b : Bool) (m k : Exec (World A D) Bool)
      → KeepsAccounts m
      → KeepsAccounts k
      → KeepsAccounts (if b then m else k)
  choose true m k hm hk = hm
  choose false m k hm hk = hk

  mark_sent-KeepsAccounts :
      (key : Bytes) (n : ℕ) (a : A) (t : DigitalToken) → KeepsAccounts (mark_sent e key n a t)
  mark_sent-KeepsAccounts key n a t =
      let marks = widened e t.properties in
      let t' : DigitalToken = record t { properties = set marks n exists_on_shard } in
      bind-KeepsAccounts (lift (byte_at marks n))
        (λ mark.
          if ltb 0 mark then pure true else (marshal_and_save_data e a t' key >>= λ _. pure false))
        (λ w. refl)
        (λ mark.
          choose (ltb 0 mark) (pure true) (marshal_and_save_data e a t' key >>= λ _. pure false)
            (λ w. refl)
            (bind-KeepsAccounts (marshal_and_save_data e a t' key) (λ _. pure false)
              (marshal_and_save_data-KeepsAccounts e a t' key) (λ b w. refl)))

  sent_if_found-KeepsAccounts :
      (key : Bytes) (n : ℕ) (found : Option DigitalToken × A)
      → KeepsAccounts (sent_if_found e key n found)
  sent_if_found-KeepsAccounts key n (none, a) = λ w. refl
  sent_if_found-KeepsAccounts key n (some t, a) = mark_sent-KeepsAccounts key n a t

  pub was_already_sent-KeepsAccounts :
      (k : Bytes) (n : ℕ) (a : Bytes) → KeepsAccounts (was_already_sent e k n a)
  unfolding was_already_sent
  was_already_sent-KeepsAccounts k n a =
      let key = compute_dcdt_nft_token_key (dcdt_token_key e.core k) n in
      let d = e.compute_id a in
      let read =
        reads (get_dcdt_digital_token_data_from_system_account e key default_query_options) in
      let found =
        bind-KeepsAccounts read (sent_if_found e key d) (λ w. refl)
          (sent_if_found-KeepsAccounts key d) in
      let meta =
        choose (d == e.metachain_shard_id) (pure true) (read >>= sent_if_found e key d) (λ w. refl)
          found in
      let always = choose (e.is_flag_enabled send_always_flag) (pure false) _ (λ w. refl) meta in
      let own = choose (d == e.self_id) (pure true) _ (λ w. refl) always in
      let nonce = choose (n == 0) (pure true) _ (λ w. refl) own in
      choose (not (e.is_flag_enabled save_to_system_account_flag)) (pure false) _ (λ w. refl) nonce
