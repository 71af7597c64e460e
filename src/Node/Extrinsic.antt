-- ===== src/Node/Extrinsic.antt =====
-- node/src/service.rs, `create_extrinsic`, and node/src/benchmarking.rs, the builders that use it.
pub mod Laws
use mathlib.Core.Option.{map}
use substrate_evm_account_ma.Prelude.{
  ◌/◌, zero, ◌^◌, leb, if◌then◌else◌, suc, Bytes, none, some, unwrap_or, Option, ℕ,
}
use substrate_evm_account_ma.Prelude.Checked.{expect, ◌>>=◌, panics, returns, Checked}
use substrate_evm_account_ma.Account.{AccountId}
use substrate_evm_account_ma.Runtime.{version, block_hash_count}

-- `u32::checked_next_power_of_two`: the powers from an exponent on, as many as the fuel.
unfoldable pub power_at_least : (fuel exponent count : ℕ) → Option ℕ
power_at_least zero exponent count = none
power_at_least (suc fuel) exponent count =
    let rest = power_at_least fuel (suc exponent) count in
    if leb count (2 ^ exponent) then some (2 ^ exponent) else rest

-- A `u32` has the powers of the exponents 0 to 31.
abbrev pub checked_next_power_of_two : ℕ → Option ℕ
checked_next_power_of_two count = power_at_least 32 0 count

-- The period of the era, for a number of block hashes kept.
unfoldable pub period : ℕ → ℕ
period count = unwrap_or (map (λ c. c / 2) (checked_next_power_of_two count)) 2

-- `SignedExtra`; the checks that carry no data are left out.
pub record SignedExtra (Era : Type 0) : Type 0 where
  pub check_era : Era
  pub check_nonce : ℕ
  pub charge_transaction_payment : ℕ

-- `SignedPayload`: the call, the extra data, and the data that is signed but not sent.
pub record SignedPayload (RuntimeCall Era Hash : Type 0) : Type 0 where
  pub function : RuntimeCall
  pub extra : SignedExtra Era
  pub spec_version : ℕ
  pub transaction_version : ℕ
  pub genesis_hash : Hash
  pub best_hash : Hash

-- `UncheckedExtrinsic::new_signed`
pub record UncheckedExtrinsic (RuntimeCall Era : Type 0) : Type 0 where
  pub function : RuntimeCall
  pub signed : AccountId
  pub signature : Bytes
  pub extra : SignedExtra Era

-- What the code asks of the client: `block_hash(0).ok().flatten()`, `chain_info` and the runtime's
-- API; and of the libraries: eras, the bytes of a payload that are signed, and sr25519 keys.
pub record FullClient (Hash : Type 0) : Type 0 where
  pub block_hash : ℕ → Option Hash
  pub best_hash : Hash
  pub best_number : ℕ
  pub account_nonce : Hash → AccountId → Option ℕ

pub record Signing (RuntimeCall Era Hash Pair : Type 0) : Type 0 where
  pub mortal : ℕ → ℕ → Era
  pub saturated_into_u64 : ℕ → ℕ
  pub using_encoded : SignedPayload RuntimeCall Era Hash → Bytes
  pub public : Pair → AccountId
  pub sign : Pair → Bytes → Bytes

module _ {RuntimeCall Era Hash Pair : Type 0} (l : Signing RuntimeCall Era Hash Pair)
    (client : FullClient Hash) where
  abbrev pub fetch_nonce : Pair → Checked ℕ
  fetch_nonce account = expect (client.account_nonce client.best_hash (l.public account))

  abbrev pub nonce_or_fetch : Option ℕ → Pair → Checked ℕ
  nonce_or_fetch (some nonce) sender = returns nonce
  nonce_or_fetch none sender = fetch_nonce sender

  abbrev pub raw_payload :
      RuntimeCall → SignedExtra Era → Hash → Hash → SignedPayload RuntimeCall Era Hash
  raw_payload function extra genesis_hash best_hash = record {
    function = function;
    extra = extra;
    spec_version = version.spec_version;
    transaction_version = version.transaction_version;
    genesis_hash = genesis_hash;
    best_hash = best_hash;
  }

  unfoldable pub create_extrinsic :
      Pair → RuntimeCall → Option ℕ → Checked (UncheckedExtrinsic RuntimeCall Era)
  create_extrinsic sender function given = do
    genesis_hash ← expect (client.block_hash 0)
    let best_hash = client.best_hash
    let best_block = client.best_number
    nonce ← nonce_or_fetch given sender
    let extra : SignedExtra Era = record {
      check_era = l.mortal (period block_hash_count) (l.saturated_into_u64 best_block);
      check_nonce = nonce;
      charge_transaction_payment = 0;
    }
    returns (record {
      function = function;
      signed = l.public sender;
      signature =
          l.sign sender (l.using_encoded (raw_payload function extra genesis_hash best_hash));
      extra = extra;
    })
