-- ===== src/Encode/Laws.antt =====
-- What the packed encoding guarantees: concatenation, big-endian numbers, exact widths.
use mathlib.Core.List.{foldl, reverse, flatten, map-append}
use substrate_evm_account_ma.Prelude.{
  ℕ, ◌+◌, ◌-◌, ◌*◌, ◌/◌, ◌^◌, ◌≤◌, ◌<◌, ◌≡◌, refl, ap, sym, subst, ◌∙◌, inl, inr, List, [], ◌∷◌,
  ◌++◌, arith, leb, if◌then◌else◌, Bool-cases, Bytes, drop, drop_of_length_le, append_assoc,
  append-nil, map, to_be_bytes, to_be_bytes-add, to_be_bytes-low, length-to_be_bytes, shr8,
  drop-to_be_bytes,
}
use substrate_evm_account_ma.Encode.{
  U256, limbs, TakeLastXBytes, SolidityDataType, pack, join, extend_limb, push_pack, encode_packed,
  sub_usize,
}

-- The number that four limbs stand for.
abbrev pub value : U256 → ℕ
value n = n.limb0 + 2 ^ 64 * (n.limb1 + 2 ^ 64 * (n.limb2 + 2 ^ 64 * n.limb3))

-- Each limb is a `u64`.
pub record IsU256 (n : U256) : Type 0 where
  pub fits0 : n.limb0 < 2 ^ 64
  pub fits1 : n.limb1 < 2 ^ 64
  pub fits2 : n.limb2 < 2 ^ 64
  pub fits3 : n.limb3 < 2 ^ 64

limb_high : (a b : ℕ) → a < 2 ^ 64 → shr8 8 (a + 2 ^ 64 * b) ≡ b
limb_high a b h = omega arith

limb_split :
    (m a b : ℕ)
    → a < 2 ^ 64
    → to_be_bytes (8 + m) (a + 2 ^ 64 * b) ≡ to_be_bytes m b ++ to_be_bytes 8 a
limb_split m a b h =
    rw (to_be_bytes-add m 8 (a + 2 ^ 64 * b), limb_high a b h, to_be_bytes-low 8 a b)

limbs-packed :
    (n : U256) → IsU256 n → foldl extend_limb [] (reverse (limbs n)) ≡ to_be_bytes 32 (value n)
limbs-packed n h = rw (
  limb_split 24 n.limb0 (n.limb1 + 2 ^ 64 * (n.limb2 + 2 ^ 64 * n.limb3)) h.fits0,
  limb_split 16 n.limb1 (n.limb2 + 2 ^ 64 * n.limb3) h.fits1,
  limb_split 8 n.limb2 n.limb3 h.fits2,
)

drop_to_width : (k v : ℕ) → k ≤ 32 → drop (32 - k) (to_be_bytes 32 v) ≡ to_be_bytes k v
drop_to_width k v h =
    subst (λ n. drop (32 - k) (to_be_bytes n v) ≡ to_be_bytes k v) (omega arith)
      (drop-to_be_bytes (32 - k) k v)

drop_wide : (k v : ℕ) → 32 ≤ k → drop k (to_be_bytes 32 v) ≡ []
drop_wide k v h = drop_of_length_le k (to_be_bytes 32 v) (omega (arith, length-to_be_bytes 32 v))

-- A number whose limbs are `u64`s is packed as its 32 bytes, the highest first.
pub pack-number :
    (n : U256) → IsU256 n → pack (SolidityDataType.number n) ≡ to_be_bytes 32 (value n)
unfolding pack
pack-number n h = limbs-packed n h

-- A number with a shift, its limbs `u64`s and its width a 32-bit `usize`, is packed as its last
-- `bits / 8` bytes, the highest first, if these are at most 32. Above 32 the subtraction wraps and
-- nothing is left.
pub pack-number_with_shift :
    (n : U256) (t : TakeLastXBytes)
    → IsU256 n
    → t.bits < 2 ^ 32
    → pack (SolidityDataType.number_with_shift n t)
      ≡ (if leb (t.bits / 8) 32 then to_be_bytes (t.bits / 8) (value n) else [])
unfolding pack
pack-number_with_shift n t h w =
    rw (limbs-packed n h, length-to_be_bytes 32 (value n))
      (elim (Bool-cases (leb (t.bits / 8) 32)) [
        | inl narrow ↦
            let skip : sub_usize 32 (t.bits / 8) ≡ 32 - t.bits / 8 = ground arith in
            rw (narrow, skip) (drop_to_width (t.bits / 8) (value n) (ground arith))
        | inr wide ↦ rw wide (drop_wide (sub_usize 32 (t.bits / 8)) (value n) (ground arith))
      ])

join_nil : (xs : List Bytes) → join xs [] ≡ flatten xs
unfolding flatten
join_nil [] = refl
join_nil (x ∷ []) = sym (append-nil x)
join_nil (x ∷ y ∷ ys) = ap (λ zs. x ++ zs) (join_nil (y ∷ ys))

push_packs :
    (items : List SolidityDataType) (acc : List Bytes)
    → foldl push_pack acc items ≡ acc ++ map pack items
push_packs [] acc = sym (append-nil acc)
push_packs (i ∷ items) acc =
    push_packs items (acc ++ (pack i ∷ [])) ∙ append_assoc acc (pack i ∷ []) (map pack items)

encode_packed_lem : (items : List SolidityDataType) → encode_packed items ≡ flatten (map pack items)
unfolding encode_packed
encode_packed_lem items = rw (push_packs items []) (join_nil (map pack items))

flatten-append : (xs ys : List Bytes) → flatten (xs ++ ys) ≡ flatten xs ++ flatten ys
unfolding flatten
flatten-append [] ys = refl
flatten-append (x ∷ xs) ys =
    ap (λ zs. x ++ zs) (flatten-append xs ys) ∙ sym (append_assoc x (flatten xs) (flatten ys))

-- Items are packed one after the other, with nothing between them.
encode_packed-append :
    (xs ys : List SolidityDataType)
    → encode_packed (xs ++ ys) ≡ encode_packed xs ++ encode_packed ys
encode_packed-append xs ys =
    simp encode_packed_lem (rw (map-append pack xs ys) (flatten-append (map pack xs) (map pack ys)))
