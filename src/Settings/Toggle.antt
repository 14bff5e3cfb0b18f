-- ===== src/Settings/Toggle.antt =====
-- What setting and unsetting a global setting does to what the handlers are told.
use mathlib.Core.Path.{subst}
use k_chain_vm_common_go.Common.{
  ◌≡◌, ◌≢◌, sym, ◌∙◌, ap, inl, inr, Bool, true, [], ◌∷◌, none, some, Bytes, arith, bytes_equal_iff,
}
use k_chain_vm_common_go.Errors.{ok, Result-cases}
use k_chain_vm_common_go.Vm.{ContractCallInput, VmOutput}
use k_chain_vm_common_go.Env.{Env, World, user_account, dcdt_token_key}
use k_chain_vm_common_go.Env.Laws.{IsStore, IsAdapter}
use k_chain_vm_common_go.Address.{system_account_address, is_system_account_address}
use k_chain_vm_common_go.Metadata.{
  GlobalMetadata, global_metadata_from_bytes, global_metadata_to_bytes,
}
use k_chain_vm_common_go.Metadata.RoundTrip.{global_metadata_round_trip}
use k_chain_vm_common_go.Settings.{
  SettingFunction, dcdt_pause, dcdt_un_pause, dcdt_set_limited_transfer,
  dcdt_un_set_limited_transfer, dcdt_set_burn_role_for_all, dcdt_un_set_burn_role_for_all, toggled,
  get_system_account, metadata_of, get_global_metadata, save_system_account, toggle_setting,
  process_global_settings,
}

-- The settings of a token, the one that a function is about, and the value of each.
pub data Setting : Type 0 where
  pause limited_transfers burn_for_all : Setting

abbrev pub setting_of : SettingFunction → Setting
setting_of dcdt_pause = pause
setting_of dcdt_un_pause = pause
setting_of dcdt_set_limited_transfer = limited_transfers
setting_of dcdt_un_set_limited_transfer = limited_transfers
setting_of dcdt_set_burn_role_for_all = burn_for_all
setting_of dcdt_un_set_burn_role_for_all = burn_for_all

abbrev pub value_of : Setting → GlobalMetadata → Bool
value_of pause m = m.paused
value_of limited_transfers m = m.limited_transfer
value_of burn_for_all m = m.burn_role_for_all

-- One setting has the value, and the others are as they were.
abbrev pub Toggles : SettingFunction → Bool → GlobalMetadata → GlobalMetadata → Type 0
Toggles function set before after =
    (value_of (setting_of function) after ≡ set)
    × ((s : Setting) → s ≢ setting_of function → value_of s after ≡ value_of s before)

toggled-Toggles :
    (function : SettingFunction) (set : Bool) (m : GlobalMetadata)
    → Toggles function set m (toggled function set m)
unfolding toggled
toggled-Toggles function set m = (here function, λ s ne. there function s ne)
  where
    here : (f : SettingFunction) → value_of (setting_of f) (toggled f set m) ≡ set
    here f = ground arith

    there :
        (f : SettingFunction) (s : Setting)
        → s ≢ setting_of f
        → value_of s (toggled f set m) ≡ value_of s m
    there f s ne = ground (arith, ne)

module _ {A D : Type 0} (e : Env A D) (store : IsStore e) (adapter : IsAdapter e) where
  system_address :
      (w : World A D) (a : A)
      → get_system_account e w ≡ ok a
      → e.address_bytes a ≡ system_account_address
  unfolding get_system_account
  system_address w a h = ground (arith, adapter.load_address w.db system_account_address a)

  read_of :
      (w : World A D) (a : A)
      → get_system_account e w ≡ ok a
      → (key : Bytes) → get_global_metadata e w key ≡ metadata_of e (e.retrieve_value a key)
  unfolding get_global_metadata
  read_of w a g key = ground arith

  -- After the system account is written, reads of the settings see the write and nothing else.
  pub system_after :
      (w : World A D) (a : A) (key v : Bytes)
      → get_system_account e w ≡ ok a
      → (save_system_account e a key v w).0 ≡ ok tt
      → (get_system_account e (save_system_account e a key v w).1 ≡ ok (e.save_key_value a key v).1)
        × ((e.save_key_value a key v).0 ≡ none)
        × ((save_system_account e a key v w).1.accounts ≡ w.accounts)
  unfolding get_system_account
  system_after w a key v g h =
      let a' = (e.save_key_value a key v).1 in
      let same_address = store.address-save a key v ∙ system_address w a g in
      let loads : (e.save_account w.db a').0 ≡ none
          → e.load_account (e.save_account w.db a').1 system_account_address ≡ user_account a' =
        λ s.
          subst (λ x. e.load_account (e.save_account w.db a').1 x ≡ user_account a') same_address
            (adapter.load-save w.db a' s) in
      (ground (arith, loads), ground arith, ground arith)

  -- The settings of a key after a write of it, and of any other key.
  settings_after :
      (w : World A D) (a : A) (key j v : Bytes)
      → get_system_account e w ≡ ok a
      → (save_system_account e a key v w).0 ≡ ok tt
      → (get_global_metadata e (save_system_account e a key v w).1 key
          ≡ ok (global_metadata_from_bytes v))
        × (j ≢ key
            → get_global_metadata e (save_system_account e a key v w).1 j
              ≡ get_global_metadata e w j)
  settings_after w a key j v g h =
      let w' = (save_system_account e a key v w).1 in
      let a' = (e.save_key_value a key v).1 in
      let (now, saved, _) = system_after w a key v g h in
      (
        read_of w' a' now key ∙ ap (metadata_of e) (store.retrieve-save_self a key v saved),
        λ ne.
            read_of w' a' now j
            ∙ ap (metadata_of e) (store.retrieve-save_ne a key j v (λ p. ne (sym p)))
            ∙ sym (read_of w a g j),
      )

  steps :
      (function : SettingFunction) (set : Bool) (i : ContractCallInput) (token_id : Bytes)
      (w : World A D) (out : VmOutput)
      → i.arguments ≡ token_id ∷ []
      → (process_global_settings e function set (some i) w).0 ≡ ok out
      → let key = dcdt_token_key e.core token_id in
        (i.caller_addr ≡ e.dcdt_sc_address)
        × ((is_system_account_address i.recipient_addr ≡ true)
            × ((a : A) × (m : GlobalMetadata) × (get_system_account e w ≡ ok a)
                × (get_global_metadata e w key ≡ ok m)
                × ((save_system_account e a key
                      (global_metadata_to_bytes (toggled function set m))
                      w).0
                    ≡ ok tt)
                × ((process_global_settings e function set (some i) w).1
                    ≡ (save_system_account e a key
                        (global_metadata_to_bytes (toggled function set m))
                        w).1)))
  unfolding process_global_settings toggle_setting
  steps function set i token_id w out args h = elim (Result-cases (get_system_account e w)) [
    | inl (a, system) ↦
        elim (Result-cases (get_global_metadata e w (dcdt_token_key e.core token_id))) [
          | inl (m, found) ↦ (
            ground (arith, bytes_equal_iff i.caller_addr e.dcdt_sc_address),
            (ground arith, (a, m, system, found, ground arith, ground arith)),
          )
          | inr (x, missing) ↦ absurd (ground arith)
        ]
    | inr (x, missing) ↦ absurd (ground arith)
  ]

  -- Setting or unsetting a global setting that succeeds is called by the system contract for the
  -- system account, changes the one setting of the token as asked, leaves its other settings and
  -- those of every other token, and touches no user account.
  pub process_global_settings_effect :
      (function : SettingFunction) (set : Bool) (i : ContractCallInput) (token_id : Bytes)
      (w : World A D) (out : VmOutput)
      → i.arguments ≡ token_id ∷ []
      → (process_global_settings e function set (some i) w).0 ≡ ok out
      → let w' = (process_global_settings e function set (some i) w).1 in
        let key = dcdt_token_key e.core token_id in
        (i.caller_addr ≡ e.dcdt_sc_address)
        × (is_system_account_address i.recipient_addr ≡ true)
        × ((before : GlobalMetadata) × (after : GlobalMetadata) × (get_global_metadata e w key
              ≡ ok before)
            × (get_global_metadata e w' key ≡ ok after)
            × Toggles function set before after)
        × ((j : Bytes) → j ≢ key → get_global_metadata e w' j ≡ get_global_metadata e w j)
        × (w'.accounts ≡ w.accounts)
  process_global_settings_effect function set i token_id w out args h =
      let key = dcdt_token_key e.core token_id in
      let (caller, (recipient, (a, m, system, found, saved, same))) =
        steps function set i token_id w out args h in
      let v = global_metadata_to_bytes (toggled function set m) in
      (
        caller,
        recipient,
        (
          m,
          toggled function set m,
          found,
          rw same (
              (settings_after w a key key v system saved).0
              ∙ ap ok (global_metadata_round_trip (toggled function set m))),
          toggled-Toggles function set m,
        ),
        λ j ne. rw same ((settings_after w a key j v system saved).1 ne),
        rw same (system_after w a key v system saved).2,
      )
