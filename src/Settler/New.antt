-- ===== src/Settler/New.antt =====
-- internal/settler/settler.go and solana.go: `New` and `NewSolana`.
use xpay_server.Base.{
  Str, Option, none, some, Result, ok, ◌>>=◌, ◌>>◌, fail_if, or_fail, codes, ◌==◌, str_eq,
  if◌then◌else◌, is_empty, not, trim_prefix, ℤ, List, [], ◌∷◌, Bool,
}
use xpay_server.Config.{Config}
use xpay_server.Settler.Solana.{SolanaSettler}
use xpay_server.Settler.Signature.{field}

-- The EVM settler but for its settings: the address of the contract that it is bound to and the
-- address that pays for gas, each none where the pointer is nil.
pub record EvmSettler : Type 0 where
  pub contract : Option Str
  pub gas_wallet : Option Str

pub data AnySettler : Type 0 where
  evm : EvmSettler → AnySettler
  solana : SolanaSettler → AnySettler

pub data NewError : Type 0 where
  dial_failed bad_gas_key transactor_failed bad_abi : NewError
  bad_mint bad_pay_to no_token_account : NewError

-- An entry of a contract's interface: a function, and its inputs' names and types.
pub record Method : Type 0 where
  pub name : Str
  pub inputs : List (Str × Str)

-- `transferWithAuthorizationABI`
abbrev pub transfer_with_authorization_abi : List Method
transfer_with_authorization_abi =
    record {
      name = codes "transferWithAuthorization";
      inputs =
          field "from" "address"
          ∷ field "to" "address"
          ∷ field "value" "uint256"
          ∷ field "validAfter" "uint256"
          ∷ field "validBefore" "uint256"
          ∷ field "nonce" "bytes32"
          ∷ field "v" "uint8"
          ∷ field "r" "bytes32"
          ∷ field "s" "bytes32"
          ∷ [];
    }
    ∷ []

-- What the constructors take from go-ethereum and solana-go: a private key is read from hex and has
-- an address, `transactor` gives the sender of `NewKeyedTransactorWithChainID`, `dial` is whether an
-- RPC client can be made, `abi_json` whether the interface parses.
pub record NewLib : Type 0 where
  pub private_key : Str → Option Str
  pub key_address : Str → Str
  pub transactor : Str → ℤ → Option Str
  pub dial : Str → Bool
  pub abi_json : List Method → Bool
  pub hex_to_address : Str → Str
  pub from_base58 : Str → Option Str
  pub find_ata : Str → Str → Option Str

module _ (lib : NewLib) where
  unfoldable pub new_solana : Config → Result NewError SolanaSettler
  new_solana c = do
    mint ← or_fail (lib.from_base58 c.usdc_address) bad_mint
    pay_to ← or_fail (lib.from_base58 c.pay_to_address) bad_pay_to
    ata ← or_fail (lib.find_ata pay_to mint) no_token_account
    ok (record {
      mint = mint;
      pay_to_wallet = pay_to;
      pay_to_token_ata = ata;
      finalized_only = c.solana_confirmation == codes "finalized";
    })

  abbrev pub gas_key : Config → Option Str
  gas_key c = lib.private_key (trim_prefix c.gas_priv_key_hex (codes "0x"))

  -- The settler of a dry run: nothing is dialled, and a key that does not parse is passed over.
  unfoldable pub new_dry_run : Config → EvmSettler
  new_dry_run c = record {
    contract = none;
    gas_wallet =
        if is_empty c.gas_priv_key_hex
        then none
        else elim (gas_key c) [ none ↦ none | some key ↦ some (lib.key_address key) ];
  }

  unfoldable pub new_evm : Config → Result NewError EvmSettler
  new_evm c = do
    fail_if (not (lib.dial c.rpc_url)) dial_failed
    key ← or_fail (gas_key c) bad_gas_key
    from ← or_fail (lib.transactor key c.chain_id) transactor_failed
    fail_if (not (lib.abi_json transfer_with_authorization_abi)) bad_abi
    ok (record { contract = some (lib.hex_to_address c.usdc_address); gas_wallet = some from })

  -- `New`
  unfoldable pub new_settler : Config → Result NewError AnySettler
  new_settler c =
      if c.payment_chain == codes "solana"
      then (new_solana c >>= λ s. ok (solana s))
      else if c.dry_run
      then ok (evm (new_dry_run c))
      else new_evm c >>= λ s. ok (evm s)

-- `GasWalletAddress`: the zero address where there is no transactor.
unfoldable pub gas_wallet_address : Str → EvmSettler → Str
gas_wallet_address zero_address s = elim s.gas_wallet [ none ↦ zero_address | some from ↦ from ]
