-- ===== src/Env/Laws.antt =====
-- Documented behaviour of the dependencies, as hypotheses of the theorems that rest on it.
use k_chain_vm_common_go.Common.{◌≡◌, ◌≢◌, List, [], none, some, Bytes}
use k_chain_vm_common_go.Errors.{HostError, ok}
use k_chain_vm_common_go.Vm.{DigitalToken}
use k_chain_vm_common_go.Env.{Env, user_account}

-- The account's data handler is a map from keys to values: a successful save is seen by later reads
-- of that key alone, a failed one changes nothing, and the address of an account is fixed.
pub record IsStore {A D : Type 0} (e : Env A D) : Type 0 where
  pub retrieve-save_self :
      (a : A) (k v : Bytes)
      → (e.save_key_value a k v).0 ≡ none
      → e.retrieve_value (e.save_key_value a k v).1 k ≡ (v, none)
  pub retrieve-save_ne :
      (a : A) (k j v : Bytes)
      → k ≢ j
      → e.retrieve_value (e.save_key_value a k v).1 j ≡ e.retrieve_value a j
  pub save_failed :
      (a : A) (k v : Bytes) (x : HostError)
      → (e.save_key_value a k v).0 ≡ some x
      → (e.save_key_value a k v).1 ≡ a
  pub address-save :
      (a : A) (k v : Bytes) → e.address_bytes (e.save_key_value a k v).1 ≡ e.address_bytes a

-- The marshaller reads back what it wrote, whatever the target held, and writes at least one byte.
pub record IsMarshaller {A D : Type 0} (e : Env A D) : Type 0 where
  pub unmarshal-marshal :
      (t u : DigitalToken) (b : Bytes) → e.marshal_token t ≡ ok b → e.unmarshal_token u b ≡ ok t
  pub marshal_ne_nil : (t : DigitalToken) → e.marshal_token t ≢ ok []
  pub unmarshal-marshal_roles :
      (r s : List Bytes) (b : Bytes) → e.marshal_roles r ≡ ok b → e.unmarshal_roles s b ≡ ok r
  pub marshal_roles_eq_nil : (r : List Bytes) → e.marshal_roles r ≡ ok [] → r ≡ []

-- The accounts adapter persists accounts by address: an account that was saved is what the next load
-- of its address gives, a loaded account has the address that was asked for.
pub record IsAdapter {A D : Type 0} (e : Env A D) : Type 0 where
  pub load-save :
      (d : D) (a : A)
      → (e.save_account d a).0 ≡ none
      → e.load_account (e.save_account d a).1 (e.address_bytes a) ≡ user_account a
  pub load_address :
      (d : D) (address : Bytes) (a : A)
      → e.load_account d address ≡ user_account a
      → e.address_bytes a ≡ address
