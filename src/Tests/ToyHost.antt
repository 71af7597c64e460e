-- ===== src/Tests/ToyHost.antt =====
-- A host that meets every assumption: its hash is the length, and a key is its signature.
use mathlib.Core.Path.{ap₂}
use substrate_evm_account_ma.Prelude.{
  sym, ◌∙◌, [], refl, ◌∷◌, append_injective, length-append, take, ap, replicate, some, ◌*◌, ◌++◌,
  length, length-take, ◌≡◌, Bytes, arith, map, List,
}
use substrate_evm_account_ma.Account.Laws.{IsH160}
use substrate_evm_account_ma.Encode.{U256}
use substrate_evm_account_ma.Host.{Host, Token}
use substrate_evm_account_ma.Host.Laws.{IsScale, AllWords, IsWord, kind, IsEthabi, IsSs58}
use substrate_evm_account_ma.Tests.ToyWords.{
  u256_from_bytes, number_word_injective, u256_from_bytes_injective, length-number_word,
  u256_from_bytes-IsU256, number_word, IsHash-bytes_le, bytes_le,
}

unfoldable pub word : Token → Bytes
word (Token.uint n) = number_word n
word (Token.address a) = replicate 12 0 ++ a
word (Token.fixed_bytes b) = b

unfoldable pub encode_words : List Token → Bytes
encode_words [] = []
encode_words (t ∷ ts) = word t ++ encode_words ts

length-word : (t : Token) → IsWord t → length (word t) ≡ 32
unfolding word
length-word (Token.uint n) h = length-number_word n
length-word (Token.address a) h = omega arith
length-word (Token.fixed_bytes b) h = h

length-encode_words : (ts : List Token) → AllWords ts → length (encode_words ts) ≡ 32 * length ts
unfolding encode_words
length-encode_words [] h = refl
length-encode_words (t ∷ ts) h = omega (
  arith,
  length-append {0} (word t) (encode_words ts),
  length-word t h.0,
  length-encode_words ts h.1,
)

word_injective : (t u : Token) → kind t ≡ kind u → IsWord t → IsWord u → word t ≡ word u → t ≡ u
unfolding word
word_injective (Token.uint m) (Token.uint n) k h h' e =
    ap Token.uint (number_word_injective m n h h' e)
word_injective (Token.address a) (Token.address b) k h h' e =
    ap Token.address (append_injective (replicate 12 0) a (replicate 12 0) b refl e).1
word_injective (Token.fixed_bytes a) (Token.fixed_bytes b) k h h' e = ap Token.fixed_bytes e
word_injective (Token.uint m) (Token.address b) k h h' e = cc
word_injective (Token.uint m) (Token.fixed_bytes b) k h h' e = cc
word_injective (Token.address a) (Token.uint n) k h h' e = cc
word_injective (Token.address a) (Token.fixed_bytes b) k h h' e = cc
word_injective (Token.fixed_bytes a) (Token.uint n) k h h' e = cc
word_injective (Token.fixed_bytes a) (Token.address b) k h h' e = cc

encode_words_injective :
    (ts us : List Token)
    → map kind ts ≡ map kind us
    → AllWords ts
    → AllWords us
    → encode_words ts ≡ encode_words us
    → ts ≡ us
unfolding encode_words
encode_words_injective [] [] k h h' e = refl
encode_words_injective [] (u ∷ us) k h h' e = cc
encode_words_injective (t ∷ ts) [] k h h' e = cc
encode_words_injective (t ∷ ts) (u ∷ us) k h h' e =
    let (first, others) =
      append_injective (word t) (encode_words ts) (word u) (encode_words us)
        (length-word t h.0 ∙ sym (length-word u h'.0)) e in
    ap₂ (λ x xs. x ∷ xs) (word_injective t u (cc) h.0 h'.0 first)
      (encode_words_injective ts us (cc) h.1 h'.1 others)

abbrev pub host : Host
host = record {
  keccak_256 = λ x. bytes_le 32 (length x);
  blake2_256 = λ x. bytes_le 32 (length x);
  secp256k1_ecdsa_recover = λ signature message. some signature;
  secp256k1_ecdsa_recover_compressed = λ signature message. some signature;
  account_id32_decode = λ b. some b;
  h160_from_h256 = λ x. take 20 (x ++ replicate 20 0);
  u256_from_bytes = u256_from_bytes;
  u256_from_u64 = λ n. record { limb0 = n; limb1 = 0; limb2 = 0; limb3 = 0 };
  abi_encode = encode_words;
  to_ss58check_with_version = λ a prefix. prefix ∷ a;
  encode_who_nonce = λ who nonce. nonce ∷ who;
}

pub host-IsEthabi : IsEthabi host
host-IsEthabi = record {
  keccak_256-IsHash = λ x. IsHash-bytes_le (length x);
  length-abi_encode = length-encode_words;
  abi_encode_injective = encode_words_injective;
  u256_from_bytes-IsU256 = u256_from_bytes-IsU256;
  u256_from_bytes_injective = u256_from_bytes_injective;
  u256_from_u64-IsU256 = λ n h. omega arith;
  u256_from_u64_injective = λ m n h k e. ap (λ (x : U256). x.limb0) e;
}

pub host-IsSs58 : IsSs58 host
host-IsSs58 a b p q e = (cc, cc)

pub host-IsScale : IsScale host
host-IsScale a b m n z z' h h' e = (cc, cc)

pub host-IsH160 : IsH160 host
host-IsH160 x =
    omega (arith, length-take {0} 20 (x ++ replicate 20 0), length-append {0} x (replicate 20 0))
