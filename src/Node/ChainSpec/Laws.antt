-- ===== src/Node/ChainSpec/Laws.antt =====
-- The genesis states are consistent, and what loading a specification needs.
use substrate_evm_account_ma.Prelude.{
  bytes_eq_iff, false, inr, inl, bytes_eq, Bool-cases, refl, ◌+◌, ◌∷◌, [], as_bytes, ◌≢◌, arith,
  u128_max, none, ◌≤◌, ◌*◌, ◌<◌, ◌≡◌, Bytes, length, ◌^◌, map, Bool, ℕ, List,
}
use substrate_evm_account_ma.Account.{AccountId}
use substrate_evm_account_ma.Node.ChainSpec.{
  error, map_result, ok, read, Loaded, Result, local_testnet_config, testnet_genesis,
  development_config, load_spec, Keys,
}

abbrev pub total : List (AccountId × ℕ) → ℕ
total [] = 0
total ((who, amount) ∷ balances) = amount + total balances

module _ {AuraId GrandpaId : Type 0} (authorities : List (AuraId × GrandpaId)) (root : AccountId)
    (endowed : List AccountId) (println : Bool) where
  total_endowment :
      (accounts : List AccountId)
      → total (map (λ k. (k, 2 ^ 60)) accounts) ≡ 2 ^ 60 * length accounts
  total_endowment [] = refl
  total_endowment (a ∷ accounts) = omega (arith, total_endowment accounts)

  -- The genesis endows each account listed with 2 ^ 60, in total that times their number, which a
  -- `u128` holds for fewer than 2 ^ 68 accounts.
  pub testnet_genesis-total :
      length endowed < 2 ^ 68
      → (total (testnet_genesis authorities root endowed println).balances
          ≡ 2 ^ 60 * length endowed)
        × (total (testnet_genesis authorities root endowed println).balances ≤ u128_max)
  unfolding testnet_genesis
  testnet_genesis-total few = let t = total_endowment endowed in (t, omega arith)

map_result-ok :
    {AuraId GrandpaId File : Type 0} (r : Result File) (spec : Loaded AuraId GrandpaId File)
    → map_result read r ≡ ok spec
    → (file : File) × (spec ≡ read file) × (r ≡ ok file)
map_result-ok (ok file) spec e = (file, cc, refl)
map_result-ok (error message) spec e = cc

different : (x y : Bytes) → bytes_eq x y ≡ false → x ≢ y
different x y e same = cc ((bytes_eq_iff x y).1 same)

module _ {AuraId GrandpaId : Type 0} (k : Keys AuraId GrandpaId) where
  -- Without the runtime's binary only a specification from a file is loaded: for an identifier other
  -- than the three known ones, and the file's specification unchanged.
  pub load_spec_no_wasm :
      {File : Type 0} (from_json_file : Bytes → Result File) (id : Bytes)
      (spec : Loaded AuraId GrandpaId File)
      → k.wasm_binary ≡ none
      → load_spec k from_json_file id ≡ ok spec
      → (file : File) × (spec ≡ read file)
        × (from_json_file id ≡ ok file)
        × (id ≢ as_bytes "dev")
        × (id ≢ as_bytes "local")
        × (id ≢ [])
  unfolding load_spec development_config local_testnet_config
  load_spec_no_wasm from_json_file id spec missing e =
      elim (Bool-cases (bytes_eq id (as_bytes "dev"))) [
        | inl dev ↦ cc (rw (dev, missing) at e)
        | inr not_dev ↦ elim (Bool-cases (bytes_eq id [])) [
          | inl empty ↦ cc (rw (not_dev, empty, missing) at e)
          | inr not_empty ↦ elim (Bool-cases (bytes_eq id (as_bytes "local"))) [
            | inl local ↦ cc (rw (not_dev, not_empty, local, missing) at e)
            | inr not_local ↦
                let (file, is_read, from_file) =
                  map_result-ok (from_json_file id) spec
                    (rw (not_dev, not_empty, not_local) at e) in
                (
                  file,
                  is_read,
                  from_file,
                  different id (as_bytes "dev") not_dev,
                  different id (as_bytes "local") not_local,
                  different id [] not_empty,
                )
          ]
        ]
      ]
