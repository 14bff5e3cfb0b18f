-- ===== src/Settings/Paused.antt =====
-- A paused token: the settings and the balances together.
use k_chain_vm_common_go.Common.{
  ℕ, ◌≡◌, ◌≢◌, Bool, true, false, [], ◌∷◌, some, Bytes, arith, bytes_equal_iff,
}
use k_chain_vm_common_go.Common.Int.{ℤ}
use k_chain_vm_common_go.Errors.{ok, err, dcdt_token_is_paused}
use k_chain_vm_common_go.Vm.{ContractCallInput, VmOutput, DigitalToken}
use k_chain_vm_common_go.Env.{Env, World, dcdt_token_key}
use k_chain_vm_common_go.Env.Laws.{IsStore, IsAdapter}
use k_chain_vm_common_go.Interfaces.{SettingsHandler}
use k_chain_vm_common_go.Metadata.{GlobalMetadata}
use k_chain_vm_common_go.Balance.{check_froze_and_pause, add_to_dcdt_balance}
use k_chain_vm_common_go.Balance.Storage.{token_at}
use k_chain_vm_common_go.Freeze.Effect.{is_frozen}
use k_chain_vm_common_go.Settings.{
  dcdt_pause, get_global_metadata, is_paused, settings_handler, process_global_settings,
}
use k_chain_vm_common_go.Settings.Toggle.{process_global_settings_effect}

module _ {A D : Type 0} (e : Env A D) where
  paused_refuses :
      (settings : SettingsHandler (World A D)) (p : ℕ) (key : Bytes) (value : ℤ) (w : World A D)
      (t : DigitalToken)
      → token_at e w p key ≡ ok t
      → t.token_type ≡ e.fungible
      → is_frozen t ≡ false
      → settings.is_paused w key ≡ true
      → e.address_bytes (w.accounts p) ≢ e.dcdt_sc_address
      → add_to_dcdt_balance e p key value settings false w ≡ (err dcdt_token_is_paused, w)
  unfolding add_to_dcdt_balance check_froze_and_pause
  paused_refuses settings p key value w t found fungible free paused other =
      ground (arith, bytes_equal_iff (e.address_bytes (w.accounts p)) e.dcdt_sc_address)

  is_paused_of :
      (active : Bool) (w : World A D) (key : Bytes) (m : GlobalMetadata)
      → get_global_metadata e w key ≡ ok m
      → m.paused ≡ true
      → (settings_handler e active).is_paused w key ≡ true
  unfolding settings_handler is_paused
  is_paused_of active w key m found paused = ground arith

  -- After a pause that succeeds, every change of a fungible balance of that token, not frozen, of an
  -- account other than the system contract and not on the way back from an error, is refused as
  -- paused and changes nothing.
  pub paused_token_refuses :
      (store : IsStore e) (adapter : IsAdapter e) (active : Bool) (p : ℕ) (i : ContractCallInput)
      (token_id : Bytes) (value : ℤ) (w : World A D) (out : VmOutput) (t : DigitalToken)
      → i.arguments ≡ token_id ∷ []
      → (process_global_settings e dcdt_pause true (some i) w).0 ≡ ok out
      → let w' = (process_global_settings e dcdt_pause true (some i) w).1 in
        let key = dcdt_token_key e.core token_id in
        token_at e w' p key ≡ ok t
        → t.token_type ≡ e.fungible
        → is_frozen t ≡ false
        → e.address_bytes (w'.accounts p) ≢ e.dcdt_sc_address
        → add_to_dcdt_balance e p key value (settings_handler e active) false w'
          ≡ (err dcdt_token_is_paused, w')
  paused_token_refuses store adapter active p i token_id value w out t args h found fungible free
        other =
      let w' = (process_global_settings e dcdt_pause true (some i) w).1 in
      let key = dcdt_token_key e.core token_id in
      let (_, _, (_, m, _, now, (paused, _)), _, _) =
        process_global_settings_effect e store adapter dcdt_pause true i token_id w out args h in
      paused_refuses (settings_handler e active) p key value w' t found fungible free
        (is_paused_of active w' key m now paused) other
