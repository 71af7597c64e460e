-- ===== src/Node/Rpc/Laws.antt =====
-- Which methods a full node serves.
use substrate_evm_account_ma.Prelude.{◌∙◌, inl, true, ◌||◌, false, inr, ◌&&◌, ◌≡◌, Bool, Bytes}
use substrate_evm_account_ma.Node.Rpc.{RpcLibrary, FullDeps, create_full}

module _ {Client Pool DenyUnsafe Module E : Type 0} (l : RpcLibrary Client Pool DenyUnsafe Module E)
    (serves : Module → Bytes → Bool) where
  -- No method is in both.
  abbrev pub AreDisjoint : Module → Module → Type 0
  AreDisjoint a b = (name : Bytes) → (serves a name && serves b name) ≡ false

  -- Documented behaviour of `RpcModule`: a new one serves nothing; modules that share no method are
  -- merged, and the result serves the methods of both; modules that share one are not.
  pub record IsMerging : Type 0 where
    pub new_serves : (name : Bytes) → serves l.new name ≡ false
    pub merges :
        (a b : Module)
        → AreDisjoint a b
        → (c : Module) × (l.merge a b ≡ inr c)
          × ((name : Bytes) → serves c name ≡ (serves a name || serves b name))
    pub refuses :
        (a b : Module) (name : Bytes)
        → serves a name ≡ true
        → serves b name ≡ true
        → (e : E) × (l.merge a b ≡ inl e)

  module _ (L : IsMerging) (deps : FullDeps Client Pool DenyUnsafe) where
    abbrev pub system : Module
    system = l.system deps.client deps.pool deps.deny_unsafe

    abbrev pub payment : Module
    payment = l.transaction_payment deps.client

    -- The first merge succeeds, and adds nothing to the module of `System`.
    system_merged :
        (m : Module) × (l.merge l.new system ≡ inr m)
        × ((name : Bytes) → serves m name ≡ serves system name)
    system_merged =
        let (m, merged, served) = L.merges l.new system (λ name. rw (L.new_serves name)) in
        (m, merged, λ name. rw (served name, L.new_serves name))

    -- If `System` and `TransactionPayment` share no method, a full node serves the methods of both and
    -- no other. Assumes IsMerging of `RpcModule`.
    create_full_serves :
        AreDisjoint system payment
        → (m : Module) × (create_full l deps ≡ inr m)
          × ((name : Bytes) → serves m name ≡ (serves system name || serves payment name))
    unfolding create_full
    create_full_serves apart =
        let (first, merged, served) = system_merged in
        let (m, both, all) = L.merges first payment (λ name. rw (served name) (apart name)) in
        rw merged (m, both, λ name. rw (all name, served name))

    -- If they share a method, there is an error in place of a module. Assumes IsMerging of
    -- `RpcModule`.
    create_full_refuses :
        (name : Bytes)
        → serves system name ≡ true
        → serves payment name ≡ true
        → (e : E) × (create_full l deps ≡ inl e)
    unfolding create_full
    create_full_refuses name here there =
        let (first, merged, served) = system_merged in
        rw merged (L.refuses first payment name (served name ∙ here) there)
