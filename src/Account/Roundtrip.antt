-- ===== src/Account/Roundtrip.antt =====
-- Reading an Ethereum address back from its account.
use substrate_evm_account_ma.Prelude.{
  refl, length-append, arith, bytes_eq_refl, drop-append_left, none, subst, take, some, ◌++◌, drop,
  ◌∷◌, bytes_eq, ℕ, ◌≡◌, if◌then◌else◌, length, Bytes, Option,
}
use substrate_evm_account_ma.Prelude.Checked.{returns}
use substrate_evm_account_ma.Account.{evm_transparent_convert, evm_address, AccountId}
use substrate_evm_account_ma.Account.Laws.{take_address, evm_transparent_convert_lem, IsH160}
use substrate_evm_account_ma.Host.{Host}

-- The address of an account that ends in "@evm_address".
abbrev pub address_of : AccountId → Option Bytes
address_of a = if bytes_eq (drop 20 a) evm_address then some (take 20 a) else none

drop_address : (a rest : Bytes) → length a ≡ 20 → drop 20 (a ++ rest) ≡ rest
drop_address a rest e = subst (λ n. drop n (a ++ rest) ≡ rest) e (drop-append_left a rest)

module _ (h : Host) (L : IsH160 h) where
  -- The account that a key is converted to has 32 bytes, and gives back the Ethereum address of the
  -- key without its first byte. Assumes that an H160 has 20 bytes.
  pub address_of-evm_transparent_convert :
      (first : ℕ) (key : Bytes) (account : AccountId)
      → evm_transparent_convert h (first ∷ key) ≡ returns (some account)
      → (length account ≡ 32) × (address_of account ≡ some (h.h160_from_h256 (h.keccak_256 key)))
  address_of-evm_transparent_convert first key account e =
      let address = h.h160_from_h256 (h.keccak_256 key) in
      let size = L (h.keccak_256 key) in
      let same : account ≡ address ++ evm_address =
        cc (evm_transparent_convert_lem h L first key) in
      rw
        (
          same,
          drop_address address evm_address size,
          take_address address evm_address size,
          bytes_eq_refl evm_address,
        )
        (omega (arith, size, length-append {0} address evm_address), refl)
