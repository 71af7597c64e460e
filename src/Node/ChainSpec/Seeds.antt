-- ===== src/Node/ChainSpec/Seeds.antt =====
-- The development accounts of the specifications, and that they are different ones.
use substrate_evm_account_ma.Prelude.{
  ◌||◌, ◌&&◌, ◌++◌, ◌≢◌, ◌∷◌, ◌≡◌, ◌^◌, [], List, Bool, Bytes, ℕ, as_bytes, bytes_eq, bytes_eq_iff,
  false, true, map, not, refl, sym,
}
use substrate_evm_account_ma.Account.{AccountId}
use substrate_evm_account_ma.Node.ChainSpec.{Keys}

-- No account is listed twice.
abbrev pub NoneIs : AccountId → List (AccountId × ℕ) → Type 0
NoneIs who [] = Unit
NoneIs who ((other, amount) ∷ balances) = (who ≢ other) × NoneIs who balances

abbrev pub AllDiffer : List (AccountId × ℕ) → Type 0
AllDiffer [] = Unit
AllDiffer ((who, amount) ∷ balances) = NoneIs who balances × AllDiffer balances

-- The seeds of the development accounts of Substrate, of each the account and its stash.
abbrev pub names : List Bytes
names =
    as_bytes "Alice"
    ∷ as_bytes "Bob"
    ∷ as_bytes "Charlie"
    ∷ as_bytes "Dave"
    ∷ as_bytes "Eve"
    ∷ as_bytes "Ferdie"
    ∷ []

abbrev pub well_known_seeds : List Bytes
well_known_seeds = names ++ map (λ name. name ++ as_bytes "//stash") names

abbrev pub contains : List Bytes → Bytes → Bool
contains [] b = false
contains (x ∷ xs) b = let rest = contains xs b in bytes_eq x b || rest

-- Known of these seeds: two of them give two accounts.
abbrev pub IsSeparating : {AuraId GrandpaId : Type 0} → Keys AuraId GrandpaId → Type 0
IsSeparating k =
    (a b : Bytes)
    → contains well_known_seeds a ≡ true
    → contains well_known_seeds b ≡ true
    → k.account_id_from_seed a ≡ k.account_id_from_seed b
    → a ≡ b

-- A list of well-known seeds, none of them twice.
abbrev pub are_distinct_seeds : List Bytes → Bool
are_distinct_seeds [] = true
are_distinct_seeds (x ∷ xs) =
    let rest = are_distinct_seeds xs in contains well_known_seeds x && (not (contains xs x) && rest)

abbrev pub endowments :
    {AuraId GrandpaId : Type 0} → Keys AuraId GrandpaId → List Bytes → List (AccountId × ℕ)
endowments k seeds = map (λ a. (a, 2 ^ 60)) (map k.account_id_from_seed seeds)

all_three : (a b c : Bool) → (a && (not b && c)) ≡ true → (a ≡ true) × (b ≡ false) × (c ≡ true)
all_three true false true e = (refl, refl, refl)
all_three true false false e = cc
all_three true true c e = cc
all_three false b c e = cc

neither : (a b : Bool) → (a || b) ≡ false → (a ≡ false) × (b ≡ false)
neither false false e = (refl, refl)
neither false true e = cc
neither true b e = cc

all_known :
    (x : Bytes) (xs : List Bytes)
    → are_distinct_seeds (x ∷ xs) ≡ true
    → (contains well_known_seeds x ≡ true)
      × (contains xs x ≡ false)
      × (are_distinct_seeds xs ≡ true)
all_known x xs e = all_three (contains well_known_seeds x) (contains xs x) (are_distinct_seeds xs) e

NoneIs-endowments :
    {AuraId GrandpaId : Type 0} (k : Keys AuraId GrandpaId) (x : Bytes) (xs : List Bytes)
    → IsSeparating k
    → contains well_known_seeds x ≡ true
    → contains xs x ≡ false
    → are_distinct_seeds xs ≡ true
    → NoneIs (k.account_id_from_seed x) (endowments k xs)
NoneIs-endowments k x [] S known fresh distinct = tt
NoneIs-endowments k x (y ∷ ys) S known fresh distinct =
    let (known_y, fresh_y, distinct_ys) = all_known y ys distinct in
    let (not_y, not_ys) = neither (bytes_eq y x) (contains ys x) fresh in
    (
      λ same. cc (not_y, (bytes_eq_iff y x).1 (sym (S x y known known_y same))),
      NoneIs-endowments k x ys S known not_ys distinct_ys,
    )

pub AllDiffer-endowments :
    {AuraId GrandpaId : Type 0} (k : Keys AuraId GrandpaId) (seeds : List Bytes)
    → IsSeparating k
    → are_distinct_seeds seeds ≡ true
    → AllDiffer (endowments k seeds)
AllDiffer-endowments k [] S e = tt
AllDiffer-endowments k (x ∷ xs) S e =
    let (known, fresh, distinct) = all_known x xs e in
    (NoneIs-endowments k x xs S known fresh distinct, AllDiffer-endowments k xs S distinct)
