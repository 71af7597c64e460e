-- ===== src/Node/ChainSpec/Support.antt =====
-- The specifications built here against the runtime: what its pallets ask of a genesis.
use mathlib.Core.List.{Mem, mem-cons_self}
use substrate_evm_account_ma.Prelude.{
  ◌||◌, bytes_eq, Bool-cases, true, as_bytes, Bytes, subst, refl, sym, [], inr, suc, ◌∙◌, ap, arith,
  inl, some, ◌+◌, Option-cases, u128_max, ◌∷◌, ◌^◌, Bool, map, ℕ, ◌≡◌, length, ◌≤◌, List,
}
use substrate_evm_account_ma.Account.{AccountId}
use substrate_evm_account_ma.Node.ChainSpec.{
  development_accounts, local_testnet_accounts, Loaded, error, built, read,
  authority_keys_from_seed, map_result, Result, load_spec, local_testnet_config, ok, ChainSpec,
  development_config, Genesis, Keys, testnet_genesis,
}
use substrate_evm_account_ma.Node.ChainSpec.Seeds.{AllDiffer, AllDiffer-endowments, IsSeparating}
use substrate_evm_account_ma.Node.ChainSpec.Laws.{testnet_genesis-total, total}
use substrate_evm_account_ma.Runtime.{existential_deposit, max_authorities, service_fee}

-- Each account can exist and pay the service fee of a meta call beyond that.
abbrev pub AllFunded : List (AccountId × ℕ) → Type 0
AllFunded [] = Unit
AllFunded ((who, amount) ∷ balances) =
    (existential_deposit + service_fee ≤ amount) × AllFunded balances

-- What the runtime's pallets ask of a genesis: the authorities of both consensus pallets are as many,
-- at least one, and within their bounds, no account is endowed twice, each is funded, the issuance is a `u128`, and the
-- sudo key is one of the accounts.
pub record IsSupported {AuraId GrandpaId : Type 0} (g : Genesis AuraId GrandpaId) : Type 0 where
  pub one_authority : 1 ≤ length g.aura_authorities
  pub few_authorities : length g.aura_authorities ≤ max_authorities
  pub same_authorities : length g.grandpa_authorities ≡ length g.aura_authorities
  pub no_duplicates : AllDiffer g.balances
  pub funded : AllFunded g.balances
  pub issuance : total g.balances ≤ u128_max
  pub root_funded :
      (root : AccountId) × (amount : ℕ) × (g.sudo_key ≡ some root) × Mem (root, amount) g.balances

length-map : {A B : Type 0} (g : A → B) (xs : List A) → length (map g xs) ≡ length xs
length-map g [] = refl
length-map g (x ∷ xs) = ap suc (length-map g xs)

AllFunded-endowment : (accounts : List AccountId) → AllFunded (map (λ k. (k, 2 ^ 60)) accounts)
AllFunded-endowment [] = tt
AllFunded-endowment (a ∷ accounts) = (omega arith, AllFunded-endowment accounts)

-- For few authorities, and few accounts with the root key first.
testnet_genesis-IsSupported :
    {AuraId GrandpaId : Type 0} (authorities : List (AuraId × GrandpaId)) (root : AccountId)
    (others : List AccountId) (println : Bool)
    → 1 ≤ length authorities
    → length authorities ≤ max_authorities
    → length others ≤ 2 ^ 60
    → AllDiffer (map (λ k. (k, 2 ^ 60)) (root ∷ others))
    → IsSupported (testnet_genesis authorities root (root ∷ others) println)
unfolding testnet_genesis
testnet_genesis-IsSupported {AuraId} {GrandpaId} authorities root others println one few small
      differ =
    let auras = length-map {B = AuraId} (λ x. x.0) authorities in
    let grandpas = length-map {B = GrandpaId × ℕ} (λ x. (x.1, 1)) authorities in
    record {
      one_authority = omega (arith, auras);
      few_authorities = omega (arith, auras);
      same_authorities = grandpas ∙ sym auras;
      no_duplicates = differ;
      funded = AllFunded-endowment (root ∷ others);
      issuance = (testnet_genesis-total authorities root (root ∷ others) println (omega arith)).1;
      root_funded = (root, 2 ^ 60, refl, mem-cons_self);
    }

map_result-built :
    {AuraId GrandpaId File : Type 0} (r : Result (ChainSpec AuraId GrandpaId))
    (spec : ChainSpec AuraId GrandpaId)
    → map_result {B = Loaded AuraId GrandpaId File} built r ≡ ok (built spec)
    → r ≡ ok spec
map_result-built (ok spec') spec e = cc
map_result-built (error message) spec e = cc

map_result-read :
    {AuraId GrandpaId File : Type 0} (r : Result File) (spec : ChainSpec AuraId GrandpaId)
    → ¬ (map_result read r ≡ ok (built spec))
map_result-read (ok file) spec e = cc
map_result-read (error message) spec e = cc

module _ {AuraId GrandpaId : Type 0} (k : Keys AuraId GrandpaId) (S : IsSeparating k) where
  IsSupported-ok :
      (s spec : ChainSpec AuraId GrandpaId)
      → ok s ≡ ok spec
      → IsSupported s.genesis
      → IsSupported spec.genesis
  IsSupported-ok s spec e supported =
      let same : s ≡ spec = cc in
      subst (λ (r : ChainSpec AuraId GrandpaId). IsSupported r.genesis) same supported

  development-IsSupported :
      (spec : ChainSpec AuraId GrandpaId)
      → development_config k ≡ ok spec
      → IsSupported spec.genesis
  unfolding development_config bytes_eq
  development-IsSupported spec e = elim (Option-cases k.wasm_binary) [
    | inl missing ↦ cc (rw missing at e)
    | inr (wasm, given) ↦ IsSupported-ok _ spec (rw given at e) (
        testnet_genesis-IsSupported (authority_keys_from_seed k (as_bytes "Alice") ∷ [])
          (k.account_id_from_seed (as_bytes "Alice")) _ true (omega arith) (omega arith)
          (omega arith) (AllDiffer-endowments k (development_accounts k) S refl))
  ]

  local_testnet-IsSupported :
      (spec : ChainSpec AuraId GrandpaId)
      → local_testnet_config k ≡ ok spec
      → IsSupported spec.genesis
  unfolding local_testnet_config bytes_eq
  local_testnet-IsSupported spec e = elim (Option-cases k.wasm_binary) [
    | inl missing ↦ cc (rw missing at e)
    | inr (wasm, given) ↦ IsSupported-ok _ spec (rw given at e) (
        testnet_genesis-IsSupported
          (authority_keys_from_seed k (as_bytes "Alice")
            ∷ authority_keys_from_seed k (as_bytes "Bob")
            ∷ [])
          (k.account_id_from_seed (as_bytes "Alice")) _ true (omega arith) (omega arith)
          (omega arith) (AllDiffer-endowments k (local_testnet_accounts k) S refl))
  ]

  -- Whichever identifier a specification is built for, its genesis meets what the runtime's pallets
  -- ask of one: both consensus pallets have the same number of authorities, 1 to 32, no account is
  -- endowed twice and each has the existential deposit and the service fee of a meta call, the
  -- issuance is a `u128`, and the sudo key is one of the accounts. Assumes that two of the well-known
  -- seeds of development accounts give two accounts.
  pub load_spec-IsSupported :
      {File : Type 0} (from_json_file : Bytes → Result File) (id : Bytes)
      (spec : ChainSpec AuraId GrandpaId)
      → load_spec k from_json_file id ≡ ok (built spec)
      → IsSupported spec.genesis
  unfolding load_spec
  load_spec-IsSupported from_json_file id spec e =
      elim (Bool-cases (bytes_eq id (as_bytes "dev"))) [
        | inl dev ↦ development-IsSupported spec (map_result-built _ spec (rw dev at e))
        | inr not_dev ↦ elim (Bool-cases (bytes_eq id [] || bytes_eq id (as_bytes "local"))) [
          | inl local ↦
              local_testnet-IsSupported spec (map_result-built _ spec (rw (not_dev, local) at e))
          | inr other ↦ absurd (map_result-read (from_json_file id) spec (rw (not_dev, other) at e))
        ]
      ]
