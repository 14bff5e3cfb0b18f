-- ===== src/Lib.antt =====
-- Verification library of k-chain-vm-common-go: the built-in functions of the virtual machine's
-- common code, the parsers and the builder of transaction data, and the helpers that they share.
--
-- The program. A node calls ProcessBuiltinFunction of a built-in function with the sender's account,
-- the destination's account (nil for one of another shard) and a ContractCallInput. The function
-- checks the input, asks the handlers of roles, of global settings and of payable accounts, writes
-- to the data tries of the accounts and returns a VMOutput or an error. What was written before an
-- error stays written. The parsers read the texts from which such inputs are made, the builder
-- writes them.
--
-- The files and the code that they model. Each definition is named after the Go function, in this
-- language's spelling (addToDCDTBalance is `add_to_dcdt_balance`).
--   Numbers: gasCost.go, and math/big and uint64 as the code uses them.
--   Errors, Exec, Vm, Interfaces: builtInFunctions/errors.go; handlers as actions that return the
--     state beside a value or an error; input.go and output.go; interface.go.
--   Env: the accounts, the accounts adapter, the marshaller, the flags, the shards and the constants
--     of k-chain-core-go, which are parameters; builtInFunctions/flags.go. Env/Laws states the
--     documented behaviour of these parameters.
--   Metadata: builtInFunctions/dcdtMetaData.go and codeMetadata.go.
--   Address: address.go. TokenName: ValidateToken of common.go.
--   Logs: builtInFunctions/logsAndEvents.go, and computeGasRemaining of
--     builtInFunctions/changeOwnerAddress.go.
--   Balance, Transfer: builtInFunctions/dcdtTransfer.go. The transfer takes the handlers of
--     Interfaces as parameters; Settings.settings_handler, Roles.role_handler and
--     Payable.payable_check fill them.
--   Local: builtInFunctions/dcdtLocalMint.go, dcdtLocalBurn.go and dcdtBurn.go.
--   Payable: builtInFunctions/payable.go and disabledPayable.go.
--   Roles: builtInFunctions/dcdtRoles.go, with saveRolesToAccount and the latest nonce of
--     dcdtNFTCreateRoleTransfer.go and dcdtNFTCreate.go.
--   Settings: builtInFunctions/dcdtGlobalSettings.go.
--   Freeze: builtInFunctions/dcdtFreezeWipe.go.
--   TokenStorage: builtInFunctions/dcdtDataStorage.go. TokenStorage/Contract states what it promises
--     of its keys, as a record of laws over Interfaces.StorageHandler, which the theorems on
--     non-fungible tokens take as a hypothesis; TokenStorage/Holding is about the storage and that
--     contract, TokenStorage/Reading about what is read, and TokenStorage/Map about identifiers and
--     nonces in place of keys.
--   Nft: builtInFunctions/dcdtNFTBurn.go, dcdtNFTAddQuantity.go, dcdtNFTCreate.go, dcdtNFTAddUri.go
--     and updateNFTAttributes.go; Nft/Transfer: dcdtNFTTransfer.go.
--   KeyValue: builtInFunctions/keyValueStorage.go.
--   Container: builtInFunctions/container.go and container/mutexMap.go.
--   Hex: encoding/hex as the code uses it.
--   Parsers: parsers/tokenize.go, callArgsParser.go, deployArgsParser.go, storageUpdatesParser.go.
--   TransferParser: parsers/dcdtTransferParser.go, over the marshaller, of which it takes the Value
--     of the token that it unmarshals, nil included.
--   Builder: txDataBuilder/builder.go.
--   TrieMigrator: dataTrieMigrator/dataTrieMigrator.go.
--   Tests: a concrete environment that meets the laws, and the theorems at concrete inputs.
--
-- State. Accounts stand behind references: `World` maps a reference to an account and holds the
-- accounts that the adapter has persisted. Two arguments may be one reference, as two Go pointers
-- may be one account. An account loaded through the adapter is a new object.
--
-- Numbers. A byte slice is a list of natural numbers, with the hypothesis AreBytes where their range
-- matters. uint64 subtraction wraps at 2 ^ 64. big.Int is the integers. The value of a token is not
-- nil, except in TransferParser, and the call value may be. No definition has fuel: loops are recursion on their lists, and
-- the digits of a number recursion on its order.
--
-- Not modelled. Locks and the replacement of gas costs; the depth that RetrieveValue reports; the
-- sharing of backing arrays by `append`; the fields of inputs and outputs that no modelled function
-- reads or sets (a VMOutput here always has the code Ok). A nil call value, a nil pointer or an index
-- out of range is the error `runtime_panic`. The account that a creation loads to use its roles,
-- or a transfer to credit it, stands behind a reference of its own, which the handler takes as an
-- argument. The multi transfer, the guardians, the functions on user names, owners and rewards, the
-- data field parser and the creator have no model. The locks of the container make each
-- of its operations one step; its keys come in the order of a list.
pub mod Common
pub mod Numbers
pub mod Errors
pub mod Exec
pub mod Vm
pub mod Env
pub mod Interfaces
pub mod Metadata
pub mod Balance
pub mod Address
pub mod Hex
pub mod Logs
pub mod Local
pub mod Payable
pub mod Transfer
pub mod TransferParser
pub mod Roles
pub mod Settings
pub mod Tests
pub mod Parsers
pub mod Builder
pub mod Container
pub mod Freeze
pub mod TrieMigrator
pub mod TokenName
pub mod KeyValue
pub mod TokenStorage
pub mod Nft
