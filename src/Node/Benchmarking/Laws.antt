-- ===== src/Node/Benchmarking/Laws.antt =====
-- The extrinsics that the benchmarks build.
use substrate_evm_account_ma.Prelude.{refl, some, [], ◌≡◌, ℕ}
use substrate_evm_account_ma.Prelude.Checked.{returns}
use substrate_evm_account_ma.Node.Benchmarking.{
  transfer_keep_alive, remark, ExtrinsicBuilder, build, BuilderLibrary,
}
use substrate_evm_account_ma.Node.Extrinsic.{
  create_extrinsic, FullClient, Signing, raw_payload, UncheckedExtrinsic,
}
use substrate_evm_account_ma.Node.Extrinsic.Laws.{signed_extrinsic}

module _ {RuntimeCall Era Hash Pair Opaque : Type 0} (l : Signing RuntimeCall Era Hash Pair)
    (b : BuilderLibrary RuntimeCall Era Pair Opaque) where
  abbrev pub client_of : ExtrinsicBuilder (FullClient Hash) → FullClient Hash
  client_of (remark client) = client
  client_of (transfer_keep_alive client dest value) = client

  abbrev pub call_of : ExtrinsicBuilder (FullClient Hash) → RuntimeCall
  call_of (remark client) = b.system_remark []
  call_of (transfer_keep_alive client dest value) = b.balances_transfer_keep_alive dest value

  create_extrinsic_given :
      (client : FullClient Hash) (sender : Pair) (function : RuntimeCall) (nonce : ℕ)
      (genesis : Hash)
      → client.block_hash 0 ≡ some genesis
      → create_extrinsic l client sender function (some nonce)
        ≡ returns (signed_extrinsic l client sender function nonce genesis)
  unfolding create_extrinsic
  create_extrinsic_given client sender function nonce genesis e = rw e

  -- With a genesis block known, each builder builds an extrinsic of its call, from Bob, with the nonce
  -- given and Bob's signature over the chain's genesis and best block, whatever nonce the chain has.
  pub build_lem :
      (builder : ExtrinsicBuilder (FullClient Hash)) (nonce : ℕ) (genesis : Hash)
      → (client_of builder).block_hash 0 ≡ some genesis
      → (x : UncheckedExtrinsic RuntimeCall Era) × (build l b builder nonce
          ≡ returns (b.into_opaque x))
        × (x.function ≡ call_of builder)
        × (x.signed ≡ l.public b.bob)
        × (x.extra.check_nonce ≡ nonce)
        × (x.signature
            ≡ l.sign b.bob (
                l.using_encoded (
                  raw_payload l
                    (client_of builder)
                    x.function
                    x.extra
                    genesis
                    (client_of builder).best_hash)))
  unfolding build
  build_lem (remark client) nonce genesis e = (
    signed_extrinsic l client b.bob (b.system_remark []) nonce genesis,
    rw (create_extrinsic_given client b.bob (b.system_remark []) nonce genesis e),
    refl,
    refl,
    refl,
    refl,
  )
  build_lem (transfer_keep_alive client dest value) nonce genesis e =
      let call = b.balances_transfer_keep_alive dest value in
      (
        signed_extrinsic l client b.bob call nonce genesis,
        rw (create_extrinsic_given client b.bob call nonce genesis e),
        refl,
        refl,
        refl,
        refl,
      )
