-- ===== src/Tests/StandardExamples.antt =====
-- The hashes of EIP-712 at concrete inputs, with a host that reads and writes numbers as `ethabi` does.
-- Its hash has the two known values, and is the length of any other input.
use substrate_evm_account_ma.Prelude.{
  to_be_bytes-from_be, subst, to_be_bytes-low, sym, ◌∙◌, ap, ◌/◌, ◌∷◌, as_bytes, replicate, ◌%◌,
  length, [], inr, ◌*◌, ◌≡◌, inl, some, ◌+◌, Bool-cases, from_be, none, refl, to_be_bytes, ◌^◌,
  IsHash, arith, if◌then◌else◌, ◌<◌, Bytes, bytes_eq, ℕ,
}
use substrate_evm_account_ma.Eip712.{Eip712Domain, separator}
use substrate_evm_account_ma.Eip712.Binding.{IsDomain}
use substrate_evm_account_ma.Eip712.Standard.{
  separator-hash_struct, IsAbi, words, domain_type, domain_typehash, domain_typehash_with_salt,
  hash_struct, typed_data_hash, domain_members,
}
use substrate_evm_account_ma.Encode.Laws.{value}
use substrate_evm_account_ma.Encode.Roundtrip.{u256_of}
use substrate_evm_account_ma.Host.{Host}
use substrate_evm_account_ma.Pallet.Message.{eip712_domain, eip712_message_hash}
use substrate_evm_account_ma.Pallet.Message.Standard.{
  eip712_message_hash-typed_data_hash, call_members,
}
use substrate_evm_account_ma.Tests.ToyFrame.{config, who}
use substrate_evm_account_ma.Tests.ToyHost.{host}
use substrate_evm_account_ma.Tests.ToyWords.{IsHash-bytes_le, bytes_le}

unfoldable pub keccak : Bytes → Bytes
keccak x =
    if bytes_eq x (domain_type none)
    then to_be_bytes 32 domain_typehash
    else if bytes_eq x (domain_type (some []))
    then to_be_bytes 32 domain_typehash_with_salt
    else bytes_le 32 (length x)

abbrev pub abi_host : Host
abi_host = record host {
  keccak_256 = keccak;
  u256_from_bytes = λ b. u256_of (from_be 0 b);
  u256_from_u64 = λ n. u256_of n;
  abi_encode = words;
}

keccak-IsHash : (x : Bytes) → IsHash (keccak x)
unfolding keccak to_be_bytes
keccak-IsHash x = elim (Bool-cases (bytes_eq x (domain_type none))) [
  | inl known ↦ rw known (refl, omega arith)
  | inr other ↦ elim (Bool-cases (bytes_eq x (domain_type (some [])))) [
    | inl salted ↦ rw (other, salted) (refl, omega arith)
    | inr unknown ↦ rw (other, unknown) (IsHash-bytes_le (length x))
  ]
]

value-u256_of : (v : ℕ) → v < 2 ^ 256 → value (u256_of v) ≡ v
value-u256_of v h = omega arith

u256_of-word : (b : Bytes) → IsHash b → to_be_bytes 32 (value (u256_of (from_be 0 b))) ≡ b
u256_of-word b h =
    let v = from_be 0 b in
    let low : value (u256_of v) ≡ v % 2 ^ 256 = omega arith in
    let whole : v % 2 ^ 256 + 256 ^ 32 * (v / 2 ^ 256) ≡ v = omega arith in
    ap (to_be_bytes 32) low
    ∙ (sym (to_be_bytes-low 32 (v % 2 ^ 256) (v / 2 ^ 256))
        ∙ (ap (to_be_bytes 32) whole
            ∙ subst (λ n. to_be_bytes n v ≡ b) h.0 (to_be_bytes-from_be b 0 h.1).0))

pub abi_host-IsAbi : IsAbi abi_host
unfolding keccak bytes_eq
abi_host-IsAbi = record {
  keccak_256-IsHash = keccak-IsHash;
  abi_encode_words = λ ts h. refl;
  u256_from_bytes-IsU256 = λ b h. omega arith;
  u256_from_bytes_word = u256_of-word;
  u256_from_u64-IsU256 = λ n h. omega arith;
  u256_from_u64_value = λ n h. value-u256_of n (omega arith);
  type_hash = refl;
  type_hash_with_salt = λ salt. refl;
}

-- Chain 1, the contract that is a row of fives, and a salt.
abbrev domain : Eip712Domain
domain = record {
  name = as_bytes "Substrate";
  version = as_bytes "1";
  chain_id = record { limb0 = 1; limb1 = 0; limb2 = 0; limb3 = 0 };
  verifying_contract = replicate 20 5;
  salt = some (replicate 32 3);
}

domain-IsDomain : IsDomain domain
domain-IsDomain = record {
  chain_id_fits = omega arith;
  contract_fits = refl;
  salt_fits = (refl, omega arith);
}

separator-hash_struct_example :
    separator abi_host domain
    ≡ hash_struct abi_host (domain_type (some (replicate 32 3))) (domain_members domain)
separator-hash_struct_example = separator-hash_struct abi_host abi_host-IsAbi domain domain-IsDomain

config-IsDomain : IsDomain (eip712_domain abi_host config)
config-IsDomain = record { chain_id_fits = omega arith; contract_fits = refl; salt_fits = tt }

eip712_message_hash-typed_data_hash_example :
    eip712_message_hash abi_host config who (9 ∷ []) 7
    ≡ typed_data_hash abi_host
        (hash_struct abi_host (domain_type none) (domain_members (eip712_domain abi_host config)))
        (hash_struct abi_host
          (as_bytes "SubstrateCall(string who,bytes callData,uint64 nonce)")
          (call_members abi_host config who (9 ∷ []) 7))
eip712_message_hash-typed_data_hash_example =
    eip712_message_hash-typed_data_hash abi_host abi_host-IsAbi config who (9 ∷ []) 7
      config-IsDomain (omega arith)
