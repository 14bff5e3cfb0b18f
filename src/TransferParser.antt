-- ===== src/TransferParser.antt =====
-- parsers/dcdtTransferParser.go: the transfers in the arguments of a call.
pub mod RoundTrip
pub mod Bounds
use k_chain_vm_common_go.Common.{
  ℕ, zero, suc, ◌+◌, ◌*◌, ◌%◌, ◌^◌, Bool, true, false, not, ◌&&◌, List, [], ◌∷◌, Option, none, some,
  Bytes, bytes_equal, ◌==◌, ltb, leb, if◌then◌else◌, length, get_or, drop,
}
use k_chain_vm_common_go.Common.Int.{ℤ, pos}
use k_chain_vm_common_go.Numbers.{u64_mod, set_bytes, to_u64}
use k_chain_vm_common_go.Errors.{
  Result, ok, err, not_dcdt_transfer_input, not_enough_arguments, runtime_panic,
}
use k_chain_vm_common_go.Vm.{DigitalToken}
use k_chain_vm_common_go.Env.{Core}
use k_chain_vm_common_go.TokenStorage.{empty_token}
use k_chain_vm_common_go.TokenStorage.Sent.{max_length_for_value_to_opt_transfer}

abbrev pub min_args_for_dcdt_transfer : ℕ
min_args_for_dcdt_transfer = 2

abbrev pub min_args_for_dcdt_nft_transfer : ℕ
min_args_for_dcdt_nft_transfer = 4

abbrev pub min_args_for_multi_dcdt_nft_transfer : ℕ
min_args_for_multi_dcdt_nft_transfer = 4

abbrev pub args_per_transfer : ℕ
args_per_transfer = 3

-- The longest slice of pointers: `make` panics where its bytes exceed the address space of 2 ^ 48.
abbrev pub max_slice_length : ℕ
max_slice_length = 2 ^ 45

pub record DcdtTransfer : Type 0 where
  pub dcdt_value : ℤ
  pub dcdt_token_name : Bytes
  pub dcdt_token_type : ℕ
  pub dcdt_token_nonce : ℕ

pub record ParsedDcdtTransfers : Type 0 where
  pub dcdt_transfers : List DcdtTransfer
  pub rcv_addr : Bytes
  pub call_function : Bytes
  pub call_args : List Bytes

-- What the head of a multi transfer says: the receiver, whether it is at the sender, the number of
-- transfers, and where they start.
pub record MultiHead : Type 0 where
  pub receiver : Bytes
  pub is_tx_at_sender : Bool
  pub num_of_transfer : ℕ
  pub start_index : ℕ

-- `unmarshal_value` is the marshaller, on bytes that it unmarshals into an empty DCDigitalToken: the
-- Value of that token afterwards, nil where the bytes have none.
module _ (c : Core) (unmarshal_value : Bytes → Result (Option ℤ)) where
  -- parseSingleDCDTTransfer
  unfoldable pub parse_single_dcdt_transfer : Bytes → List Bytes → Result ParsedDcdtTransfers
  parse_single_dcdt_transfer rcv_addr args =
      if ltb (length args) min_args_for_dcdt_transfer
      then err not_enough_arguments
      else ok (record {
        dcdt_transfers =
            record {
              dcdt_value = pos (set_bytes (get_or args 1 []));
              dcdt_token_name = get_or args 0 [];
              dcdt_token_type = c.fungible;
              dcdt_token_nonce = 0;
            }
            ∷ [];
        rcv_addr = rcv_addr;
        call_function = get_or args min_args_for_dcdt_transfer [];
        call_args = drop (min_args_for_dcdt_transfer + 1) args;
      })

  -- parseSingleDCDTNFTTransfer
  unfoldable pub parse_single_dcdt_nft_transfer :
      Bytes → Bytes → List Bytes → Result ParsedDcdtTransfers
  parse_single_dcdt_nft_transfer snd_addr rcv_addr args =
      if ltb (length args) min_args_for_dcdt_nft_transfer
      then err not_enough_arguments
      else ok (record {
        dcdt_transfers =
            record {
              dcdt_value = pos (set_bytes (get_or args 2 []));
              dcdt_token_name = get_or args 0 [];
              dcdt_token_type = c.non_fungible;
              dcdt_token_nonce = to_u64 (set_bytes (get_or args 1 []));
            }
            ∷ [];
        rcv_addr = if bytes_equal snd_addr rcv_addr then get_or args 3 [] else rcv_addr;
        call_function = get_or args min_args_for_dcdt_nft_transfer [];
        call_args = drop (min_args_for_dcdt_nft_transfer + 1) args;
      })

  -- A transfer as its three arguments have it.
  abbrev pub plain_transfer : Bytes → Bytes → Bytes → DcdtTransfer
  plain_transfer token_name nonce value = record {
    dcdt_value = pos (set_bytes value);
    dcdt_token_name = token_name;
    dcdt_token_type = if ltb 0 (to_u64 (set_bytes nonce)) then c.non_fungible else c.fungible;
    dcdt_token_nonce = to_u64 (set_bytes nonce);
  }

  -- createNewDCDTTransfer, on the three arguments of the transfer; setting a nil value panics.
  unfoldable pub create_new_dcdt_transfer : Bool → Bytes → Bytes → Bytes → Result DcdtTransfer
  create_new_dcdt_transfer is_tx_at_sender token_name nonce value =
      let plain = plain_transfer token_name nonce value in
      if ltb 0 plain.dcdt_token_nonce
        && not is_tx_at_sender
        && ltb max_length_for_value_to_opt_transfer (length value)
      then elim (unmarshal_value value) [
        | err x ↦ err x
        | ok none ↦ err runtime_panic
        | ok (some transfer_value) ↦ ok (record plain { dcdt_value = transfer_value })
      ]
      else ok plain

  -- The loop of parseMultiDCDTNFTTransfer; past the last argument it panics.
  unfoldable pub create_transfers : Bool → ℕ → List Bytes → Result (List DcdtTransfer)
  create_transfers at_sender zero args = ok []
  create_transfers at_sender (suc n) (token_name ∷ nonce ∷ value ∷ args) =
      elim (create_new_dcdt_transfer at_sender token_name nonce value) [
        | err x ↦ err x
        | ok transfer ↦ elim (create_transfers at_sender n args) [
          | err x ↦ err x
          | ok transfers ↦ ok (transfer ∷ transfers)
        ]
      ]
  create_transfers at_sender (suc n) _ = err runtime_panic

  -- The head of parseMultiDCDTNFTTransfer: a first argument as long as an address that is no uint64 is
  -- the receiver.
  unfoldable pub multi_head : Bytes → List Bytes → MultiHead
  multi_head rcv_addr args =
      let first = get_or args 0 [] in
      if (length first == length rcv_addr) && not (ltb (set_bytes first) u64_mod)
      then record {
        receiver = first;
        is_tx_at_sender = true;
        num_of_transfer = to_u64 (set_bytes (get_or args 1 []));
        start_index = 2;
      }
      else record {
        receiver = rcv_addr;
        is_tx_at_sender = false;
        num_of_transfer = to_u64 (set_bytes first);
        start_index = 1;
      }

  -- The rest of it; the least length is computed on uint64.
  unfoldable pub parse_transfers : MultiHead → List Bytes → Result ParsedDcdtTransfers
  parse_transfers head args =
      let min_len_args = (args_per_transfer * head.num_of_transfer + head.start_index) % u64_mod in
      if ltb (length args) min_len_args
      then err not_enough_arguments
      else if ltb max_slice_length head.num_of_transfer
      then err runtime_panic
      else elim (create_transfers head.is_tx_at_sender head.num_of_transfer
          (drop head.start_index args)) [
            | err x ↦ err x
            | ok transfers ↦ ok (record {
              dcdt_transfers = transfers;
              rcv_addr = head.receiver;
              call_function = get_or args min_len_args [];
              call_args = drop (min_len_args + 1) args;
            })
          ]

  -- parseMultiDCDTNFTTransfer
  unfoldable pub parse_multi_dcdt_nft_transfer : Bytes → List Bytes → Result ParsedDcdtTransfers
  parse_multi_dcdt_nft_transfer rcv_addr args =
      if ltb (length args) min_args_for_multi_dcdt_nft_transfer
      then err not_enough_arguments
      else parse_transfers (multi_head rcv_addr args) args

  -- ParseDCDTTransfers
  unfoldable pub parse_dcdt_transfers :
      Bytes → Bytes → Bytes → List Bytes → Result ParsedDcdtTransfers
  parse_dcdt_transfers snd_addr rcv_addr function args =
      if bytes_equal function c.built_in_function_dcdt_transfer
      then parse_single_dcdt_transfer rcv_addr args
      else if bytes_equal function c.built_in_function_dcdt_nft_transfer
      then parse_single_dcdt_nft_transfer snd_addr rcv_addr args
      else if bytes_equal function c.built_in_function_multi_dcdt_nft_transfer
      then parse_multi_dcdt_nft_transfer rcv_addr args
      else err not_dcdt_transfer_input
