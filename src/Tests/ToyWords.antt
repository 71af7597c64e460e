-- ===== src/Tests/ToyWords.antt =====
-- Stand-ins for the codecs, with the behaviour that the theorems assume: numbers as bytes, the
-- lowest first, and `U256` from four pieces of eight bytes.
use mathlib.Core.Path.{ap₂}
use native.Mathlib.Nat.{pow-suc}
use substrate_evm_account_ma.Prelude.{
  append_injective, take-append-drop, drop-drop, drop_of_length_le, ap, append-nil, refl,
  length-drop, zero, ◌*◌, ◌/◌, length-take, subst, ◌∙◌, ◌∷◌, arith, sym, ◌%◌, ◌^◌, ◌≤◌, drop, suc,
  ◌+◌, ◌<◌, ◌≡◌, AllBytes, IsHash, [], length, take, ◌++◌, Bytes, ℕ,
}
use substrate_evm_account_ma.Encode.{U256}
use substrate_evm_account_ma.Encode.Laws.{IsU256}

abbrev pub value_le : Bytes → ℕ
value_le [] = 0
value_le (b ∷ bs) = b + 256 * value_le bs

unfoldable pub bytes_le : ℕ → ℕ → Bytes
bytes_le zero x = []
bytes_le (suc n) x = (x % 256) ∷ bytes_le n (x / 256)

bytes_le-value_le : (bs : Bytes) → AllBytes bs → bytes_le (length bs) (value_le bs) ≡ bs
unfolding bytes_le
bytes_le-value_le [] h = refl
bytes_le-value_le (b ∷ bs) h =
    let low : (b + 256 * value_le bs) % 256 ≡ b = omega arith in
    let high : (b + 256 * value_le bs) / 256 ≡ value_le bs = omega arith in
    rw (low, high, bytes_le-value_le bs h.1)

value_le-lt : (bs : Bytes) → AllBytes bs → value_le bs < 256 ^ length bs
value_le-lt [] h = omega arith
value_le-lt (b ∷ bs) h = let small = value_le-lt bs h.1 in rw pow-suc (omega arith)

value_le_injective :
    (bs cs : Bytes)
    → AllBytes bs
    → AllBytes cs
    → length bs ≡ length cs
    → value_le bs ≡ value_le cs
    → bs ≡ cs
value_le_injective bs cs h k sizes e =
    sym (bytes_le-value_le bs h) ∙ (ap₂ bytes_le sizes e ∙ bytes_le-value_le cs k)

AllBytes-take : (n : ℕ) (bs : Bytes) → AllBytes bs → AllBytes (take n bs)
AllBytes-take zero bs h = tt
AllBytes-take (suc n) [] h = tt
AllBytes-take (suc n) (b ∷ bs) h = (h.0, AllBytes-take n bs h.1)

AllBytes-drop : (n : ℕ) (bs : Bytes) → AllBytes bs → AllBytes (drop n bs)
AllBytes-drop zero bs h = h
AllBytes-drop (suc n) [] h = tt
AllBytes-drop (suc n) (b ∷ bs) h = AllBytes-drop n bs h.1

-- Eight bytes from a place on.
abbrev piece : ℕ → Bytes → Bytes
piece from b = take 8 (drop from b)

length-piece : (from : ℕ) (b : Bytes) → IsHash b → from + 8 ≤ 32 → length (piece from b) ≡ 8
length-piece from b h fits = omega (arith, length-take {0} 8 (drop from b), length-drop {0} from b)

piece-lt : (from : ℕ) (b : Bytes) → IsHash b → from + 8 ≤ 32 → value_le (piece from b) < 2 ^ 64
piece-lt from b h fits =
    subst (λ (n : ℕ). value_le (piece from b) < 256 ^ n) (length-piece from b h fits)
      (value_le-lt (piece from b) (AllBytes-take 8 (drop from b) (AllBytes-drop from b h.1)))

piece_injective :
    (from : ℕ) (b c : Bytes)
    → IsHash b
    → IsHash c
    → from + 8 ≤ 32
    → value_le (piece from b) ≡ value_le (piece from c)
    → piece from b ≡ piece from c
piece_injective from b c h k fits =
    value_le_injective (piece from b) (piece from c)
      (AllBytes-take 8 (drop from b) (AllBytes-drop from b h.1))
      (AllBytes-take 8 (drop from c) (AllBytes-drop from c k.1))
      (length-piece from b h fits ∙ sym (length-piece from c k fits))

abbrev pub u256_from_bytes : Bytes → U256
u256_from_bytes b = record {
  limb0 = value_le (piece 0 b);
  limb1 = value_le (piece 8 b);
  limb2 = value_le (piece 16 b);
  limb3 = value_le (piece 24 b);
}

pub u256_from_bytes-IsU256 : (b : Bytes) → IsHash b → IsU256 (u256_from_bytes b)
u256_from_bytes-IsU256 b h = record {
  fits0 = piece-lt 0 b h (omega arith);
  fits1 = piece-lt 8 b h (omega arith);
  fits2 = piece-lt 16 b h (omega arith);
  fits3 = piece-lt 24 b h (omega arith);
}

abbrev pieces : Bytes → Bytes
pieces b = piece 0 b ++ (piece 8 b ++ (piece 16 b ++ piece 24 b))

-- A place of the list is its next eight bytes and what follows.
piece_step : (from : ℕ) (b : Bytes) → piece from b ++ drop (from + 8) b ≡ drop from b
piece_step from b =
    ap (λ rest. piece from b ++ rest) (sym (drop-drop from 8 b)) ∙ take-append-drop 8 (drop from b)

pieces_lem : (b : Bytes) → length b ≡ 32 → pieces b ≡ b
pieces_lem b e =
    let last : piece 24 b ≡ drop 24 b =
      sym (append-nil (piece 24 b))
      ∙ (ap (λ rest. piece 24 b ++ rest) (sym (drop_of_length_le 32 b (omega arith)))
          ∙ piece_step 24 b) in
    rw (last, piece_step 16 b, piece_step 8 b) (piece_step 0 b)

pub u256_from_bytes_injective :
    (b c : Bytes) → IsHash b → IsHash c → u256_from_bytes b ≡ u256_from_bytes c → b ≡ c
u256_from_bytes_injective b c h k e =
    let p0 = piece_injective 0 b c h k (omega arith) (ap (λ (n : U256). n.limb0) e) in
    let p1 = piece_injective 8 b c h k (omega arith) (ap (λ (n : U256). n.limb1) e) in
    let p2 = piece_injective 16 b c h k (omega arith) (ap (λ (n : U256). n.limb2) e) in
    let p3 = piece_injective 24 b c h k (omega arith) (ap (λ (n : U256). n.limb3) e) in
    let same : pieces b ≡ pieces c = ap₂ ◌++◌ p0 (ap₂ ◌++◌ p1 (ap₂ ◌++◌ p2 p3)) in
    sym (pieces_lem b h.0) ∙ (same ∙ pieces_lem c k.0)

pub length-bytes_le : (n x : ℕ) → length (bytes_le n x) ≡ n
unfolding bytes_le
length-bytes_le zero x = refl
length-bytes_le (suc n) x = ap suc (length-bytes_le n (x / 256))

AllBytes-bytes_le : (n x : ℕ) → AllBytes (bytes_le n x)
unfolding bytes_le
AllBytes-bytes_le zero x = tt
AllBytes-bytes_le (suc n) x = (omega arith, AllBytes-bytes_le n (x / 256))

pub IsHash-bytes_le : (x : ℕ) → IsHash (bytes_le 32 x)
IsHash-bytes_le x = (length-bytes_le 32 x, AllBytes-bytes_le 32 x)

value_le-bytes_le : (n x : ℕ) → x < 256 ^ n → value_le (bytes_le n x) ≡ x
unfolding bytes_le
value_le-bytes_le zero x h = omega arith
value_le-bytes_le (suc n) x h =
    let h' : x < 256 ^ n * 256 = rw pow-suc at h in
    rw (value_le-bytes_le n (x / 256) (omega arith)) (omega arith)

limb_injective : (x y : ℕ) → x < 2 ^ 64 → y < 2 ^ 64 → bytes_le 8 x ≡ bytes_le 8 y → x ≡ y
limb_injective x y h k e = sym (value_le-bytes_le 8 x h) ∙ (ap value_le e ∙ value_le-bytes_le 8 y k)

-- The 32 bytes of a `U256`.
pub number_word : U256 → Bytes
number_word n =
    bytes_le 8 n.limb0 ++ (bytes_le 8 n.limb1 ++ (bytes_le 8 n.limb2 ++ bytes_le 8 n.limb3))

pub length-number_word : (n : U256) → length (number_word n) ≡ 32
unfolding number_word bytes_le
length-number_word n = refl

pub number_word_injective :
    (m n : U256) → IsU256 m → IsU256 n → number_word m ≡ number_word n → m ≡ n
unfolding number_word bytes_le
number_word_injective m n h k e =
    let (e0, r0) = append_injective (bytes_le 8 m.limb0) _ (bytes_le 8 n.limb0) _ refl e in
    let (e1, r1) = append_injective (bytes_le 8 m.limb1) _ (bytes_le 8 n.limb1) _ refl r0 in
    let (e2, e3) = append_injective (bytes_le 8 m.limb2) _ (bytes_le 8 n.limb2) _ refl r1 in
    let p0 = limb_injective m.limb0 n.limb0 h.fits0 k.fits0 e0 in
    let p1 = limb_injective m.limb1 n.limb1 h.fits1 k.fits1 e1 in
    let p2 = limb_injective m.limb2 n.limb2 h.fits2 k.fits2 e2 in
    let p3 = limb_injective m.limb3 n.limb3 h.fits3 k.fits3 e3 in
    λ i. record { limb0 = p0 i; limb1 = p1 i; limb2 = p2 i; limb3 = p3 i }
