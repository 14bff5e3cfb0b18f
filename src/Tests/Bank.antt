-- ===== src/Tests/Bank.antt =====
-- A small environment that meets the laws: accounts are an address and a map, and the marshaller
-- accepts tokens that are not negative and lists of at most one role.
use k_chain_vm_common_go.Common.{
  ℕ, ◌==◌, ◌≡◌, refl, ap, true, List, [], ◌∷◌, none, Bytes, codes, arith, bytes_equal,
  bytes_equal_iff, bytes_equal_refl, if◌then◌else◌,
}
use k_chain_vm_common_go.Errors.{other_error, Result, ok, err, host}
use k_chain_vm_common_go.Env.{Core, Env, user_account}
use k_chain_vm_common_go.Env.Laws.{IsStore, IsMarshaller, IsAdapter}
use k_chain_vm_common_go.Tests.Codec.{
  marshal_fields, unmarshal_fields, fields_read_back, fields_ne_nil,
}

pub record Account : Type 0 where
  pub address : Bytes
  pub trie : Bytes → Bytes

abbrev pub written : (Bytes → Bytes) → Bytes → Bytes → Bytes → Bytes
written trie k v j = if bytes_equal k j then v else trie j

abbrev refused : {A : Type 0} → Result A
refused = err (host (other_error 0))

abbrev pub marshal_list : List Bytes → Result Bytes
marshal_list [] = ok []
marshal_list (r ∷ []) = ok (1 ∷ r)
marshal_list (r ∷ s ∷ rs) = refused

abbrev pub unmarshal_list : Bytes → Result (List Bytes)
unmarshal_list [] = ok []
unmarshal_list (n ∷ r) = ok (r ∷ [])

abbrev pub core : Core
core = record {
  protected_key_prefix = codes "N";
  dcdt_key_identifier = codes "dcdt";
  dcdt_role_identifier = codes "role";
  dcdt_nft_latest_nonce_identifier = codes "nonce";
  dcdt_sc_address = codes "system";
  metachain_shard_id = 9;
  fungible = 0;
  non_fungible = 1;
  max_royalty = 10000;
  max_len_for_dcdt_issue_mint = 100;
  min_len_arguments_dcdt_transfer = 2;
  min_len_arguments_dcdt_nft_transfer = 4;
  built_in_function_dcdt_transfer = codes "DCDTTransfer";
  built_in_function_dcdt_nft_transfer = codes "DCDTNFTTransfer";
  built_in_function_multi_dcdt_nft_transfer = codes "MultiDCDTNFTTransfer";
  built_in_function_dcdt_nft_create = codes "DCDTNFTCreate";
  built_in_function_dcdt_nft_burn = codes "DCDTNFTBurn";
  built_in_function_dcdt_nft_add_quantity = codes "DCDTNFTAddQuantity";
  built_in_function_dcdt_nft_add_uri = codes "DCDTNFTAddURI";
  built_in_function_dcdt_nft_update_attributes = codes "DCDTNFTUpdateAttributes";
  built_in_function_dcdt_local_mint = codes "DCDTLocalMint";
  built_in_function_dcdt_local_burn = codes "DCDTLocalBurn";
  built_in_function_dcdt_burn = codes "DCDTBurn";
  dcdt_role_local_mint = codes "mint";
  dcdt_role_local_burn = codes "burn";
  dcdt_role_transfer = codes "transfer";
  dcdt_role_nft_create = codes "create";
  dcdt_role_nft_burn = codes "nftburn";
  dcdt_role_nft_add_quantity = codes "add";
  dcdt_role_nft_add_uri = codes "uri";
  dcdt_role_nft_update_attributes = codes "attributes";
  dcdt_role_nft_create_multi_shard = codes "multi";
}

abbrev pub Db : Type 0
Db = Bytes → Bytes → Bytes

-- Carol lives in another shard than everyone else.
abbrev shard_of : Bytes → ℕ
shard_of address = if bytes_equal address (codes "carol") then 1 else 0

abbrev pub bank : Env Account Db
bank = record {
  core = core;
  address_bytes = λ a. a.address;
  retrieve_value = λ a k. (a.trie k, none);
  save_key_value = λ a k v. (none, record a { trie = written a.trie k v });
  load_account = λ d address. user_account (record { address = address; trie = d address });
  save_account =
      λ d a. (none, λ address. if bytes_equal a.address address then a.trie else d address);
  marshal_token =
      λ t. marshal_fields t.token_type t.value t.properties t.token_meta_data t.reserved;
  unmarshal_token = λ t b. unmarshal_fields b;
  marshal_roles = marshal_list;
  unmarshal_roles = λ rs b. unmarshal_list b;
  is_flag_enabled = λ flag. true;
  compute_id = shard_of;
  same_shard = λ a b. shard_of a == shard_of b;
  self_id = 0;
  number_of_shards = 1;
}

read_written : (trie : Bytes → Bytes) (k v : Bytes) → written trie k v k ≡ v
read_written trie k v = rw (bytes_equal_refl k)

pub bank-IsStore : IsStore bank
bank-IsStore = record {
  retrieve-save_self = λ a k v _. ap (λ (b : Bytes). (b, none)) (read_written a.trie k v);
  retrieve-save_ne = λ a k j v ne. ground (arith, bytes_equal_iff k j);
  save_failed = λ a k v x h. cc;
  address-save = λ a k v. refl;
}

list_read_back : (r : List Bytes) (b : Bytes) → marshal_list r ≡ ok b → unmarshal_list b ≡ ok r
list_read_back r b h = ground arith

list_eq_nil : (r : List Bytes) → marshal_list r ≡ ok [] → r ≡ []
list_eq_nil r h = ground arith

pub bank-IsMarshaller : IsMarshaller bank
bank-IsMarshaller = record {
  unmarshal-marshal = λ t u b h.
      fields_read_back t.token_type t.value t.properties t.token_meta_data t.reserved b h;
  marshal_ne_nil =
      λ t h. fields_ne_nil t.token_type t.value t.properties t.token_meta_data t.reserved h;
  unmarshal-marshal_roles = λ r s b h. list_read_back r b h;
  marshal_roles_eq_nil = list_eq_nil;
}

pub bank-IsAdapter : IsAdapter bank
bank-IsAdapter = record {
  load-save = λ d a h. rw (bytes_equal_refl a.address);
  load_address = λ d address a h. ground arith;
}
