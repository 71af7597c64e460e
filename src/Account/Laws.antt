-- ===== src/Account/Laws.antt =====
-- What the Ethereum-style conversion yields for a key.
use substrate_evm_account_ma.Account.{slice_from}
use substrate_evm_account_ma.Prelude.{drop_of_length_le, take-append_left}
use substrate_evm_account_ma.Prelude.{length-append, replicate, subst, ◌↔◌}
use substrate_evm_account_ma.Prelude.{ℕ, ◌≡◌, refl, arith, some, [], ◌∷◌, ◌++◌, Bytes, length, take}
use substrate_evm_account_ma.Prelude.Checked.{returns, panics}
use substrate_evm_account_ma.Host.{Host}
use substrate_evm_account_ma.Account.{evm_address, copy_from_slice, evm_transparent_convert}

-- An `H160` has 20 bytes.
abbrev pub IsH160 : Host → Type 0
IsH160 h = (x : Bytes) → length (h.h160_from_h256 x) ≡ 20

pub slice_rest : (b : ℕ) (key : Bytes) → slice_from 1 (b ∷ key) ≡ returns key
unfolding slice_from
slice_rest b key = ground arith

abbrev pub zeros : Bytes
zeros = replicate 12 0

pub copy_address :
    (a : Bytes) → length a ≡ 20 → copy_from_slice 0 20 a (replicate 32 0) ≡ returns (a ++ zeros)
unfolding copy_from_slice
copy_address a e = rw e

pub take_address : (a rest : Bytes) → length a ≡ 20 → take 20 (a ++ rest) ≡ a
take_address a rest e = subst (λ n. take n (a ++ rest) ≡ a) e (take-append_left a rest)

pub copy_postfix :
    (a : Bytes)
    → length a ≡ 20
    → copy_from_slice 20 32 evm_address (a ++ zeros) ≡ returns (a ++ evm_address)
unfolding copy_from_slice
copy_postfix a e =
    let size : length (a ++ zeros) ≡ 32 = omega (arith, length-append {0} a zeros) in
    rw (size, take_address a zeros e, drop_of_length_le 32 (a ++ zeros) (omega arith))

module _ (h : Host) (L : IsH160 h) where
  -- A non-empty key gives the account whose 32 bytes are an Ethereum address and "@evm_address".
  -- The address is that of the key without its first byte. Assumes that an H160 has 20 bytes.
  pub evm_transparent_convert_lem :
      (first : ℕ) (key : Bytes)
      → evm_transparent_convert h (first ∷ key)
        ≡ returns (some (h.h160_from_h256 (h.keccak_256 key) ++ evm_address))
  unfolding evm_transparent_convert
  evm_transparent_convert_lem first key =
      let size = L (h.keccak_256 key) in
      rw (slice_rest first key, copy_address _ size, copy_postfix _ size)

  -- The conversion panics on the empty key and on no other. Assumes that an H160 has 20 bytes.
  pub evm_transparent_convert_panics :
      (key : Bytes) → (evm_transparent_convert h key ≡ panics) ↔ (key ≡ [])
  unfolding evm_transparent_convert slice_from
  evm_transparent_convert_panics [] = (λ _. refl, λ _. refl)
  evm_transparent_convert_panics (b ∷ key) = (λ p. cc (evm_transparent_convert_lem b key), λ p. cc)
