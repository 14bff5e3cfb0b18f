-- ===== src/Logs.antt =====
-- builtInFunctions/logsAndEvents.go, and the outputs that several functions share: the log entries,
-- the output transfer of dcdtTransfer.go and computeGasRemaining of changeOwnerAddress.go.
use k_chain_vm_common_go.Common.{
  ℕ, List, [], ◌∷◌, ◌++◌, Option, none, some, Bytes, ltb, leb, if◌then◌else◌, split_on, take, drop,
  length,
}
use k_chain_vm_common_go.Common.Int.{ℤ, pos}
use k_chain_vm_common_go.Numbers.{sub_u64, nat_bytes, int_bytes, set_bytes, to_u64}
use k_chain_vm_common_go.Hex.{encode_to_string}
use k_chain_vm_common_go.Vm.{
  CallType, ContractCallInput, OutputTransfer, LogEntry, VmOutput, format_log_data_for_call,
}

-- TopicTokenData
pub record TopicTokenData : Type 0 where
  pub token_id : Bytes
  pub nonce : ℕ
  pub value : ℤ

topic_token_bytes : List TopicTokenData → List Bytes
topic_token_bytes [] = []
topic_token_bytes (t ∷ ts) =
    t.token_id ∷ nat_bytes t.nonce ∷ int_bytes t.value ∷ topic_token_bytes ts

-- addDCDTEntryForTransferInVMOutput
unfoldable pub add_dcdt_entry_for_transfer_in_vm_output :
    ContractCallInput → Bytes → Bytes → List TopicTokenData → VmOutput → VmOutput
unfolding topic_token_bytes format_log_data_for_call
add_dcdt_entry_for_transfer_in_vm_output vm_input identifier destination topic_token_data
      vm_output =
    let entry : LogEntry = record {
      identifier = identifier;
      address = vm_input.caller_addr;
      topics = topic_token_bytes topic_token_data ++ destination ∷ [];
      log_data = format_log_data_for_call [] vm_input.function vm_input.arguments;
    } in
    record vm_output { logs = vm_output.logs ++ entry ∷ [] }

-- newEntryForDCDT
unfoldable pub new_entry_for_dcdt : Bytes → Bytes → ℕ → ℤ → List Bytes → LogEntry
new_entry_for_dcdt identifier token_id nonce value [] = record {
  identifier = identifier;
  address = [];
  topics = token_id ∷ nat_bytes nonce ∷ int_bytes value ∷ [];
  log_data = [];
}
new_entry_for_dcdt identifier token_id nonce value (address ∷ more) = record {
  identifier = identifier;
  address = address;
  topics = token_id ∷ nat_bytes nonce ∷ int_bytes value ∷ more;
  log_data = [];
}

-- addDCDTEntryInVMOutput
unfoldable pub add_dcdt_entry_in_vm_output :
    Bytes → Bytes → ℕ → ℤ → List Bytes → VmOutput → VmOutput
unfolding new_entry_for_dcdt
add_dcdt_entry_in_vm_output identifier token_id nonce value args vm_output = record vm_output {
  logs = vm_output.logs ++ new_entry_for_dcdt identifier token_id nonce value args ∷ [];
}

unfoldable pub hex_arguments : List Bytes → Bytes
hex_arguments [] = []
hex_arguments (arg ∷ args) = b'@' ∷ (encode_to_string arg ++ hex_arguments args)

-- addOutputTransferToVMOutput
unfoldable pub add_output_transfer_to_vm_output :
    ℕ → Bytes → Bytes → List Bytes → Bytes → ℕ → CallType → VmOutput → VmOutput
unfolding hex_arguments
add_output_transfer_to_vm_output index sender_address function arguments recipient gas_locked
      call_type vm_output =
    let transfer : OutputTransfer = record {
      index = index;
      value = pos 0;
      gas_limit = vm_output.gas_remaining;
      gas_locked = gas_locked;
      data_bytes = function ++ hex_arguments arguments;
      call_type = call_type;
      sender_address = sender_address;
    } in
    record vm_output {
      output_accounts =
          (recipient, record { address = recipient; output_transfers = transfer ∷ [] }) ∷ [];
      gas_remaining = 0;
    }

-- computeGasRemaining; a nil sender is `none`.
unfoldable pub compute_gas_remaining : Option ℕ → ℕ → ℕ → ℕ
compute_gas_remaining none gas_provided gas_to_use = 0
compute_gas_remaining (some snd) gas_provided gas_to_use =
    if ltb gas_provided gas_to_use then 0 else sub_u64 gas_provided gas_to_use

-- A fresh &vmcommon.VMOutput{GasRemaining: …, ReturnCode: vmcommon.Ok}
abbrev pub new_output : ℕ → VmOutput
new_output gas = record { gas_remaining = gas; output_accounts = []; logs = []; return_data = [] }

abbrev pub dcdt_identifier_separator : ℕ
dcdt_identifier_separator = b'-'

abbrev pub dcdt_random_sequence_length : ℕ
dcdt_random_sequence_length = 6

-- extractTokenIdentifierAndNonceDCDTWipe
unfoldable pub extract_token_identifier_and_nonce_dcdt_wipe : Bytes → Bytes × ℕ
unfolding split_on set_bytes to_u64
extract_token_identifier_and_nonce_dcdt_wipe args = elim (split_on dcdt_identifier_separator args) [
  | [] ↦ (args, 0)
  | ticker ∷ more ↦ elim more [
    | [] ↦ (args, 0)
    | random ∷ _ ↦ if leb (length random) dcdt_random_sequence_length then (args, 0) else (
      ticker ++ (dcdt_identifier_separator ∷ take dcdt_random_sequence_length random),
      to_u64 (set_bytes (drop dcdt_random_sequence_length random)),
    )
  ]
]
