-- ===== src/Pallet/Validate/Priority.antt =====
-- The priority that `validate_unsigned` computes: when it is computed, and how the tip moves it.
use native.Mathlib.Nat.{mul-le-mul_right, mul-le-mul_left, le-div_iff_mul-le, div-mul-le_self}
use substrate_evm_account_ma.Prelude.{
  ltb, if◌then◌else◌, ◌*◌, saturating_add_u128, ◌/◌, min, saturating_mul_u128, u128_max,
  clamp_panics, u64_max, arith, clamp_lem, dec_le, unwrap_or, ◌<◌, Option, ℕ, ◌≡◌, ◌≤◌,
}
use substrate_evm_account_ma.Host.{Host}
use substrate_evm_account_ma.Pallet.Frame.{Config, Frame}
use substrate_evm_account_ma.Pallet.Frame.Laws.{IsSaturating}
use substrate_evm_account_ma.Pallet.Types.{DispatchInfo, MetaCall}
use substrate_evm_account_ma.Pallet.Validate.{max_tx_per_block, priority}
use substrate_evm_account_ma.Pallet.Verdict.{accept, panicked}

-- The length within the bounds of `clamp`.
abbrev bounded : ℕ → ℕ → ℕ
bounded longest len = if ltb len 1 then 1 else if ltb longest len then longest else len

bounded_pos : (longest len : ℕ) → 1 ≤ longest → 1 ≤ bounded longest len
bounded_pos longest len room = ground arith

bounded_mono :
    (longest len len' : ℕ) → len ≤ len' → 1 ≤ longest → bounded longest len ≤ bounded longest len'
bounded_mono longest len len' le room = ground arith

-- A larger divisor gives no larger a quotient.
div_antitone : (a b b' : ℕ) → 1 ≤ b → b ≤ b' → a / b' ≤ a / b
div_antitone a b b' pos le =
    (le-div_iff_mul-le pos).1 (omega (arith, mul-le-mul_left (a / b') le, div-mul-le_self a b'))

module _ {RuntimeCall Rest Post Err Imbalance Liquidity : Type 0} (h : Host)
    (f : Frame RuntimeCall Rest Post Err Imbalance Liquidity)
    (c : Config RuntimeCall Rest Imbalance) where
  -- A block has room for at least one byte of the call's class.
  abbrev pub HasRoom : MetaCall RuntimeCall → Type 0
  HasRoom m = 1 ≤ c.max_length (f.get_dispatch_info m.call).class

  -- How many transactions of this length and weight fit into a block.
  abbrev fitting : ℕ → DispatchInfo → ℕ
  fitting len info =
      let longest = c.max_length info.class in
      min (longest / bounded longest len) (
        unwrap_or
          (f.defensive_proof (
            f.checked_div_per_component c.max_block (
              f.weight_min (f.weight_max info.weight (record { ref_time = 1; proof_size = 1 }))
                c.max_block)))
          1)

  max_tx_per_block_room :
      (len : ℕ) (info : DispatchInfo)
      → 1 ≤ c.max_length info.class
      → max_tx_per_block h f c len info ≡ accept (fitting len info)
  unfolding max_tx_per_block
  max_tx_per_block_room len info room = rw (clamp_lem len 1 (c.max_length info.class) room)

  max_tx_per_block_no_room :
      (len : ℕ) (info : DispatchInfo)
      → c.max_length info.class < 1
      → max_tx_per_block h f c len info ≡ panicked
  unfolding max_tx_per_block
  max_tx_per_block_no_room len info full = rw (clamp_panics len 1 (c.max_length info.class) full)

  -- The priority of a call with this tip.
  abbrev tipped : RuntimeCall → ℕ → ℕ
  tipped call tip = f.saturated_into u64_max (
      saturating_mul_u128 (saturating_add_u128 tip 1)
        (f.saturated_into u128_max (fitting (f.encoded_size call) (f.get_dispatch_info call))))

  priority_lem :
      (m : MetaCall RuntimeCall)
      → HasRoom m
      → priority h f c m ≡ accept (tipped m.call (unwrap_or m.tip 0))
  unfolding priority
  priority_lem m room =
      rw (max_tx_per_block_room (f.encoded_size m.call) (f.get_dispatch_info m.call) room)

  pub priority_room :
      (m : MetaCall RuntimeCall) → HasRoom m → (p : ℕ) × (priority h f c m ≡ accept p)
  priority_room m room = (tipped m.call (unwrap_or m.tip 0), priority_lem m room)

  -- Without room for one byte the bounds of `clamp` cross, and the computation panics.
  pub priority_no_room : (m : MetaCall RuntimeCall) → ¬ (HasRoom m) → priority h f c m ≡ panicked
  unfolding priority
  priority_no_room m full =
      rw (
        max_tx_per_block_no_room (f.encoded_size m.call) (f.get_dispatch_info m.call) (omega arith))

  pub priority-HasRoom :
      (m : MetaCall RuntimeCall) {p : ℕ} → priority h f c m ≡ accept p → HasRoom m
  priority-HasRoom m e = elim (dec_le 1 (c.max_length (f.get_dispatch_info m.call).class)) [
    | yes room ↦ room
    | no full ↦ cc (priority_no_room m full)
  ]

  tipped_mono :
      (call : RuntimeCall) (t u : ℕ)
      → IsSaturating f
      → t ≤ u
      → (tipped call t ≤ tipped call u) × (tipped call u ≤ u64_max)
  tipped_mono call t u S le =
      let count = min (fitting (f.encoded_size call) (f.get_dispatch_info call)) u128_max in
      let more : saturating_add_u128 t 1 * count ≤ saturating_add_u128 u 1 * count =
        mul-le-mul_right count (omega arith) in
      simp S (omega arith)

  -- The priority fits a `u64`, and for one call a higher tip gives no lower priority. Assumes that
  -- both priorities are computed, and that conversions of numbers saturate.
  pub priority_mono :
      (m : MetaCall RuntimeCall) (tip : Option ℕ) {p q : ℕ}
      → IsSaturating f
      → unwrap_or m.tip 0 ≤ unwrap_or tip 0
      → priority h f c m ≡ accept p
      → priority h f c (record m { tip = tip }) ≡ accept q
      → (p ≤ q) × (q ≤ u64_max)
  priority_mono m tip S le e e' = ground (
    arith,
    priority_lem m (priority-HasRoom m e),
    priority_lem (record m { tip = tip }) (priority-HasRoom m e),
    tipped_mono m.call (unwrap_or m.tip 0) (unwrap_or tip 0) S le,
  )

  fitting_antitone :
      (len len' : ℕ) (info : DispatchInfo)
      → 1 ≤ c.max_length info.class
      → len ≤ len'
      → fitting len' info ≤ fitting len info
  fitting_antitone len len' info room le =
      let longest = c.max_length info.class in
      let more : longest / bounded longest len' ≤ longest / bounded longest len =
        div_antitone longest _ _ (bounded_pos longest len room)
          (bounded_mono longest len len' le room) in
      omega (arith, more)

  scaled_mono :
      (tip count count' : ℕ)
      → IsSaturating f
      → count ≤ count'
      → f.saturated_into u64_max
          (saturating_mul_u128 (saturating_add_u128 tip 1) (f.saturated_into u128_max count))
        ≤ f.saturated_into u64_max
            (saturating_mul_u128 (saturating_add_u128 tip 1) (f.saturated_into u128_max count'))
  scaled_mono tip count count' S le =
      let more : saturating_add_u128 tip 1 * min count u128_max
          ≤ saturating_add_u128 tip 1 * min count' u128_max =
        mul-le-mul_left (saturating_add_u128 tip 1) (omega arith) in
      simp S (omega arith)

  -- Of two calls with one dispatch information and tip the shorter one has no lower a priority.
  -- Assumes that both priorities are computed, and that conversions of numbers saturate.
  pub smaller_preferred :
      (m m' : MetaCall RuntimeCall) {p q : ℕ}
      → IsSaturating f
      → f.get_dispatch_info m.call ≡ f.get_dispatch_info m'.call
      → unwrap_or m.tip 0 ≡ unwrap_or m'.tip 0
      → f.encoded_size m.call ≤ f.encoded_size m'.call
      → priority h f c m ≡ accept p
      → priority h f c m' ≡ accept q
      → q ≤ p
  smaller_preferred m m' S infos tips le e e' =
      let shorter : fitting (f.encoded_size m'.call) (f.get_dispatch_info m'.call)
          ≤ fitting (f.encoded_size m.call) (f.get_dispatch_info m.call) =
        rw infos (
          fitting_antitone (f.encoded_size m.call) (f.encoded_size m'.call)
            (f.get_dispatch_info m'.call) (priority-HasRoom m' e') le) in
      ground (
        arith,
        priority_lem m (priority-HasRoom m e),
        priority_lem m' (priority-HasRoom m' e'),
        scaled_mono (unwrap_or m.tip 0) _ _ S shorter,
      )
