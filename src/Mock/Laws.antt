-- ===== src/Mock/Laws.antt =====
-- The test runtime's loop ends at its block, and its fee handler books each imbalance once.
use mathlib.Core.List.{foldl}
use substrate_evm_account_ma.Prelude.{
  subst, ap, true, ltb, lt→ltb, arith, some, u128_max, ◌-◌, ◌≡◌, zero, ◌<◌, ◌≤◌, suc, List, ◌+◌, ℕ,
  ◌∷◌, [],
}
use substrate_evm_account_ma.Prelude.Checked.{returns}
use substrate_evm_account_ma.Mock.{
  next_block, System, Unbalanced, on_unbalanceds, run_to_block, run_while, Hooks,
}

-- The blocks that end on the way, the first one first.
abbrev pub blocks : ℕ → ℕ → List ℕ
blocks first zero = []
blocks first (suc count) = first ∷ blocks (first + 1) count

module _ {Rest : Type 0} (hooks : Hooks Rest) where
  -- A block ends and the next one begins.
  abbrev pub turn : Rest → ℕ → Rest
  turn rest n = hooks.on_initialize (n + 1) (hooks.on_finalize n rest)

  run_while_lem :
      (fuel count : ℕ) (s : System Rest)
      → count < fuel
      → run_while hooks fuel (s.block_number + count) s
        ≡ some (record {
          block_number = s.block_number + count;
          rest = foldl turn s.rest (blocks s.block_number count);
        })
  unfolding run_while
  run_while_lem zero count s enough = absurd (omega arith)
  run_while_lem (suc fuel) zero s enough = ground arith
  run_while_lem (suc fuel) (suc count) s enough =
      let next : s.block_number + suc count ≡ (s.block_number + 1) + count = omega arith in
      let more : ltb s.block_number ((s.block_number + 1) + count) ≡ true = ground arith in
      rw next (rw more (run_while_lem fuel count (next_block hooks s) (omega arith)))

  -- With fuel for the blocks to go, running to a block ahead ends, and at that block. Each block on
  -- the way was finalized and the next one initialized, in order.
  pub run_to_block_done :
      (fuel n : ℕ) (s : System Rest)
      → s.block_number < n
      → n - s.block_number < fuel
      → run_to_block hooks fuel n s
        ≡ returns (
            some (record {
              block_number = n;
              rest = foldl turn s.rest (blocks s.block_number (n - s.block_number));
            }))
  unfolding run_to_block
  run_to_block_done fuel n s ahead enough =
      let sum : s.block_number + (n - s.block_number) ≡ n = omega arith in
      rw (lt→ltb s.block_number n ahead) (
        ap returns (
          subst
            (λ k.
              run_while hooks fuel k s
              ≡ some (record {
                block_number = k;
                rest = foldl turn s.rest (blocks s.block_number (n - s.block_number));
              }))
            sum (run_while_lem fuel (n - s.block_number) s enough)))

module _ {Imbalance : Type 0} (peek : Imbalance → ℕ) where
  -- The amounts of the first and of the second imbalance, if any.
  abbrev pub first_amount : List Imbalance → ℕ
  first_amount [] = 0
  first_amount (x ∷ xs) = peek x

  abbrev pub second_amount : List Imbalance → ℕ
  second_amount [] = 0
  second_amount (x ∷ xs) = first_amount xs

  -- The first imbalance is added to the fees and the second to the tips, if the sums are `u128`s; any
  -- other is dropped.
  pub on_unbalanceds_lem :
      (items : List Imbalance) (u : Unbalanced)
      → u.fees + first_amount items ≤ u128_max
      → u.tips + second_amount items ≤ u128_max
      → on_unbalanceds peek items u
        ≡ returns
            (record { fees = u.fees + first_amount items; tips = u.tips + second_amount items })
  unfolding on_unbalanceds
  on_unbalanceds_lem [] u small small' = ground arith
  on_unbalanceds_lem (x ∷ []) u small small' = ground arith
  on_unbalanceds_lem (x ∷ y ∷ others) u small small' = ground arith
