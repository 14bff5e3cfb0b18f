-- ===== src/Vm.antt =====
-- input.go, output.go and the dcdt records: the data that the built-in functions exchange.
use k_chain_vm_common_go.Common.{ℕ, Bool, true, false, List, ◌∷◌, Option, Bytes}
use k_chain_vm_common_go.Common.Int.{ℤ}

-- The call types of k-chain-core-go that the code names; `other_call` is any other.
pub data CallType : Type 0 where
  direct_call asynchronous_call asynchronous_call_back : CallType
  dcdt_transfer_and_execute exec_on_dest_by_caller other_call : CallType

abbrev pub is_asynchronous_call_back : CallType → Bool
is_asynchronous_call_back asynchronous_call_back = true
is_asynchronous_call_back _ = false

abbrev pub is_asynchronous_call : CallType → Bool
is_asynchronous_call asynchronous_call = true
is_asynchronous_call _ = false

abbrev pub is_dcdt_transfer_and_execute : CallType → Bool
is_dcdt_transfer_and_execute dcdt_transfer_and_execute = true
is_dcdt_transfer_and_execute _ = false

-- ContractCallInput with the fields of VMInput that the modelled functions read. `call_value` is
-- a *big.Int, which may be nil.
pub record ContractCallInput : Type 0 where
  pub caller_addr : Bytes
  pub arguments : List Bytes
  pub call_value : Option ℤ
  pub call_type : CallType
  pub gas_provided : ℕ
  pub gas_locked : ℕ
  pub return_call_after_error : Bool
  pub recipient_addr : Bytes
  pub function : Bytes

pub record OutputTransfer : Type 0 where
  pub index : ℕ
  pub value : ℤ
  pub gas_limit : ℕ
  pub gas_locked : ℕ
  pub data_bytes : Bytes
  pub call_type : CallType
  pub sender_address : Bytes

-- The fields of OutputAccount that the modelled functions set; the others keep Go's zero value.
pub record OutputAccount : Type 0 where
  pub address : Bytes
  pub output_transfers : List OutputTransfer

pub record LogEntry : Type 0 where
  pub identifier : Bytes
  pub address : Bytes
  pub topics : List Bytes
  pub log_data : List Bytes

-- VMOutput; every modelled function returns the code Ok, which has no field here. A map keyed by
-- address is an association list.
pub record VmOutput : Type 0 where
  pub gas_remaining : ℕ
  pub output_accounts : List (Bytes × OutputAccount)
  pub logs : List LogEntry
  pub return_data : List Bytes

-- dcdt.MetaData
pub record MetaData : Type 0 where
  pub nonce : ℕ
  pub name : Bytes
  pub creator : Bytes
  pub royalties : ℕ
  pub hash : Bytes
  pub uris : List Bytes
  pub attributes : Bytes

-- dcdt.DCDigitalToken
pub record DigitalToken : Type 0 where
  pub token_type : ℕ
  pub value : ℤ
  pub properties : Bytes
  pub token_meta_data : Option MetaData
  pub reserved : Bytes

-- FormatLogDataForCall
unfoldable pub format_log_data_for_call : Bytes → Bytes → List Bytes → List Bytes
format_log_data_for_call call_type function_name function_args =
    call_type ∷ function_name ∷ function_args

abbrev pub is_exec_on_dest_by_caller : CallType → Bool
is_exec_on_dest_by_caller exec_on_dest_by_caller = true
is_exec_on_dest_by_caller _ = false
