-- ===== src/Node/Extrinsic/Laws.antt =====
-- The extrinsics that the node builds: the period of their era, and their signature.
use native.Mathlib.Nat.{pow-suc}
use substrate_evm_account_ma.Prelude.{
  ◌/◌, subst, refl, none, unwrap_or, zero, dec_le, arith, suc, some, ◌*◌, ◌+◌, Option, ◌<◌, ◌≡◌,
  ◌^◌, ◌≤◌, ℕ,
}
use substrate_evm_account_ma.Prelude.Checked.{returns}
use substrate_evm_account_ma.Node.Extrinsic.{
  SignedExtra, raw_payload, UncheckedExtrinsic, create_extrinsic, FullClient, Signing, period,
  power_at_least,
}
use substrate_evm_account_ma.Runtime.{block_hash_count}

-- What the search finds is a power of two that the number reaches, the one below does not.
power_at_least_lem :
    (fuel e count : ℕ)
    → 2 ^ e < count
    → count ≤ 2 ^ (e + fuel)
    → (j : ℕ) × (power_at_least fuel (suc e) count ≡ some (2 ^ suc j))
      × (2 ^ j < count)
      × (count ≤ 2 ^ suc j)
unfolding power_at_least
power_at_least_lem zero e count low high =
    absurd (omega (arith, subst (λ n. count ≤ 2 ^ n) {x = e + 0} {y = e} (omega arith) high))
power_at_least_lem (suc fuel) e count low high = elim (dec_le count (2 ^ suc e)) [
  | yes reached ↦ (e, ground arith, low, reached)
  | no above ↦
      let (j, found, under, over) =
        power_at_least_lem fuel (suc e) count (omega arith)
          (subst (λ n. count ≤ 2 ^ n) {x = e + suc fuel} {y = suc e + fuel} (omega arith) high) in
      (j, ground (arith, found), under, over)
]

skip_power :
    (fuel e count : ℕ)
    → 2 ^ e < count
    → power_at_least (suc fuel) e count ≡ power_at_least fuel (suc e) count
unfolding power_at_least
skip_power fuel e count low = ground arith

-- For at least two block hashes kept, and at most 2 ^ 31, the era's period is a power of two that
-- is less than their number and at least half of it.
pub period_lem :
    (count : ℕ)
    → 2 ≤ count
    → count ≤ 2 ^ 31
    → (j : ℕ) × (period count ≡ 2 ^ j) × (period count < count) × (count ≤ 2 * period count)
unfolding period
period_lem count low high =
    let (j, found, under, over) = power_at_least_lem 31 0 count low high in
    let half : 2 ^ suc j / 2 ≡ 2 ^ j = omega (arith, pow-suc 2 j) in
    rw (skip_power 31 0 count low, found, half) (j, refl, under, omega (arith, pow-suc 2 j))

-- The extrinsic with this nonce and this genesis block.
abbrev pub signed_extrinsic :
    {RuntimeCall Era Hash Pair : Type 0} (l : Signing RuntimeCall Era Hash Pair)
    (client : FullClient Hash) (sender : Pair) (function : RuntimeCall) (nonce : ℕ) (genesis : Hash)
    → UncheckedExtrinsic RuntimeCall Era
signed_extrinsic {Era = Era} l client sender function nonce genesis =
    let extra : SignedExtra Era = record {
      check_era = l.mortal (period block_hash_count) (l.saturated_into_u64 client.best_number);
      check_nonce = nonce;
      charge_transaction_payment = 0;
    } in
    record {
      function = function;
      signed = l.public sender;
      signature =
          l.sign sender
            (l.using_encoded (raw_payload l client function extra genesis client.best_hash));
      extra = extra;
    }

module _ {RuntimeCall Era Hash Pair : Type 0} (l : Signing RuntimeCall Era Hash Pair)
    (client : FullClient Hash) where
  -- If the genesis block is known and the account's nonce can be read, an extrinsic is signed_extrinsic. It is
  -- the sender's, with the nonce given or else the one read, no tip, and the sender's signature of
  -- the payload over the client's genesis and best block.
  pub create_extrinsic_lem :
      (sender : Pair) (function : RuntimeCall) (given : Option ℕ) (genesis : Hash) (current : ℕ)
      → client.block_hash 0 ≡ some genesis
      → client.account_nonce client.best_hash (l.public sender) ≡ some current
      → (x : UncheckedExtrinsic RuntimeCall Era) × (create_extrinsic l client sender function given
          ≡ returns x)
        × (x.signed ≡ l.public sender)
        × (x.extra.check_nonce ≡ unwrap_or given current)
        × (x.signature
            ≡ l.sign sender (
                l.using_encoded (raw_payload l client x.function x.extra genesis client.best_hash)))
  unfolding create_extrinsic
  create_extrinsic_lem sender function (some nonce) genesis current e read =
      (signed_extrinsic l client sender function nonce genesis, rw e refl, refl, refl, refl)
  create_extrinsic_lem sender function none genesis current e read = (
    signed_extrinsic l client sender function current genesis,
    rw (e, read) refl,
    refl,
    refl,
    refl,
  )
