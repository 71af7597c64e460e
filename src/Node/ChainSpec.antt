-- ===== src/Node/ChainSpec.antt =====
-- node/src/chain_spec.rs: the chain specifications and their genesis. Keys are derived outside the
-- repository, so a key and an account are given by the library from a seed.
pub mod Laws
pub mod Seeds
pub mod Support
use substrate_evm_account_ma.Prelude.{
  true, ◌||◌, [], bytes_eq, none, ◌^◌, Bool, if◌then◌else◌, map, some, ℕ, ◌∷◌, Bytes, List, Option,
  as_bytes,
}
use substrate_evm_account_ma.Account.{AccountId}

-- What `testnet_genesis` puts into the configuration.
pub record Genesis (AuraId GrandpaId : Type 0) : Type 0 where
  pub balances : List (AccountId × ℕ)
  pub aura_authorities : List AuraId
  pub grandpa_authorities : List (GrandpaId × ℕ)
  pub sudo_key : Option AccountId

unfoldable pub testnet_genesis :
    {AuraId GrandpaId : Type 0}
    → List (AuraId × GrandpaId)
    → AccountId
    → List AccountId
    → Bool
    → Genesis AuraId GrandpaId
testnet_genesis initial_authorities root_key endowed_accounts enable_println = record {
  balances = map (λ k. (k, 2 ^ 60)) endowed_accounts;
  aura_authorities = map (λ x. x.0) initial_authorities;
  grandpa_authorities = map (λ x. (x.1, 1)) initial_authorities;
  sudo_key = some root_key;
}

pub data ChainType : Type 0 where
  development local : ChainType

-- What the builder of a `GenericChainSpec` is given.
pub record ChainSpec (AuraId GrandpaId : Type 0) : Type 0 where
  pub code : Bytes
  pub name : Bytes
  pub id : Bytes
  pub chain_type : ChainType
  pub genesis : Genesis AuraId GrandpaId

-- The keys of a seed, and an account's, as `sp_core` derives them; `WASM_BINARY` of the build.
pub record Keys (AuraId GrandpaId : Type 0) : Type 0 where
  pub aura_from_seed : Bytes → AuraId
  pub grandpa_from_seed : Bytes → GrandpaId
  pub account_id_from_seed : Bytes → AccountId
  pub wasm_binary : Option Bytes

-- What is loaded: a specification built here, or one read from a file by the library.
pub data Loaded (AuraId GrandpaId File : Type 0) : Type 0 where
  built : ChainSpec AuraId GrandpaId → Loaded AuraId GrandpaId File
  read : File → Loaded AuraId GrandpaId File

-- `Result<T, String>`
pub data Result (A : Type 0) : Type 0 where
  ok : A → Result A
  error : Bytes → Result A

abbrev pub ok_or_else : {A : Type 0} → Option A → Bytes → Result A
ok_or_else (some a) e = ok a
ok_or_else none e = error e

abbrev pub map_result : {A B : Type 0} → (A → B) → Result A → Result B
map_result g (ok a) = ok (g a)
map_result g (error e) = error e

module _ {AuraId GrandpaId : Type 0} (k : Keys AuraId GrandpaId) where
  abbrev pub authority_keys_from_seed : Bytes → AuraId × GrandpaId
  authority_keys_from_seed s = (k.aura_from_seed s, k.grandpa_from_seed s)

  -- The accounts of a list of seeds.
  abbrev pub accounts : List Bytes → List AccountId
  accounts seeds = map k.account_id_from_seed seeds

  abbrev pub development_accounts : List Bytes
  development_accounts =
      as_bytes "Alice" ∷ as_bytes "Bob" ∷ as_bytes "Alice//stash" ∷ as_bytes "Bob//stash" ∷ []

  abbrev pub local_testnet_accounts : List Bytes
  local_testnet_accounts =
      as_bytes "Alice"
      ∷ as_bytes "Bob"
      ∷ as_bytes "Charlie"
      ∷ as_bytes "Dave"
      ∷ as_bytes "Eve"
      ∷ as_bytes "Ferdie"
      ∷ as_bytes "Alice//stash"
      ∷ as_bytes "Bob//stash"
      ∷ as_bytes "Charlie//stash"
      ∷ as_bytes "Dave//stash"
      ∷ as_bytes "Eve//stash"
      ∷ as_bytes "Ferdie//stash"
      ∷ []

  unfoldable pub development_config : Result (ChainSpec AuraId GrandpaId)
  development_config =
      map_result
        (λ wasm. record {
          code = wasm;
          name = as_bytes "Development";
          id = as_bytes "dev";
          chain_type = development;
          genesis =
              testnet_genesis (authority_keys_from_seed (as_bytes "Alice") ∷ [])
                (k.account_id_from_seed (as_bytes "Alice")) (accounts development_accounts) true;
        })
        (ok_or_else k.wasm_binary (as_bytes "Development wasm not available"))

  unfoldable pub local_testnet_config : Result (ChainSpec AuraId GrandpaId)
  local_testnet_config =
      map_result
        (λ wasm. record {
          code = wasm;
          name = as_bytes "Local Testnet";
          id = as_bytes "local_testnet";
          chain_type = local;
          genesis =
              testnet_genesis
                (authority_keys_from_seed (as_bytes "Alice")
                  ∷ authority_keys_from_seed (as_bytes "Bob")
                  ∷ [])
                (k.account_id_from_seed (as_bytes "Alice")) (accounts local_testnet_accounts) true;
        })
        (ok_or_else k.wasm_binary (as_bytes "Development wasm not available"))

  -- `SubstrateCli::load_spec`
  unfoldable pub load_spec :
      {File : Type 0} → (Bytes → Result File) → Bytes → Result (Loaded AuraId GrandpaId File)
  load_spec from_json_file id =
      if bytes_eq id (as_bytes "dev")
      then map_result built development_config
      else if bytes_eq id [] || bytes_eq id (as_bytes "local")
      then map_result built local_testnet_config
      else map_result read (from_json_file id)
