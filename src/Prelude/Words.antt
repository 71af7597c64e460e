-- ===== src/Prelude/Words.antt =====
-- Rust's unsigned integers: maxima, saturating operations, `clamp`, `as` casts and big-endian bytes.
use Prim.Native.Nat.{◌<◌, ◌≤◌, ℕ, zero, suc, ◌+◌, ◌-◌, ◌*◌, ◌/◌, ◌%◌, ◌^◌, min}
use mathlib.Core.Path.{◌≡◌, refl, sym, subst, ◌∙◌}
use mathlib.Core.Option.{Option, none, some}
use mathlib.Core.List.{[], ◌∷◌, ◌++◌, append-nil, append_assoc}
use native.Mathlib.Nat.{zero-add, suc-add, pow-suc}
use native.Mathlib.Omega.{arith}
use substrate_evm_account_ma.Prelude.Lists.{
  AllBytes, length, length-append, drop, drop-append_left, Bytes,
}
use substrate_evm_account_ma.Prelude.Tests.{ltb, if◌then◌else◌}

abbrev pub u32_mod : ℕ
u32_mod = 2 ^ 32

abbrev pub u64_mod : ℕ
u64_mod = 2 ^ 64

abbrev pub u64_max : ℕ
u64_max = 2 ^ 64 - 1

abbrev pub u128_max : ℕ
u128_max = 2 ^ 128 - 1

-- `u128::saturating_add` and `u128::saturating_mul`.
abbrev pub saturating_add_u128 : ℕ → ℕ → ℕ
saturating_add_u128 a b = min (a + b) u128_max

abbrev pub saturating_mul_u128 : ℕ → ℕ → ℕ
saturating_mul_u128 a b = min (a * b) u128_max

-- `u64::clamp`: it panics if the bounds cross.
abbrev pub clamp : ℕ → ℕ → ℕ → Option ℕ
clamp x lo hi =
    if ltb hi lo then none else some (if ltb x lo then lo else if ltb hi x then hi else x)

-- `to_be_bytes` of an integer of `n` bytes.
unfoldable pub to_be_bytes : ℕ → ℕ → Bytes
to_be_bytes zero x = []
to_be_bytes (suc n) x = to_be_bytes n (x / 256) ++ (x % 256) ∷ []

pub length-to_be_bytes : (n x : ℕ) → length (to_be_bytes n x) ≡ n
unfolding to_be_bytes
length-to_be_bytes zero x = refl
length-to_be_bytes (suc n) x = omega (
  arith,
  length-append {0} (to_be_bytes n (x / 256)) ((x % 256) ∷ []),
  length-to_be_bytes n (x / 256),
)

-- The value above the last `n` bytes.
abbrev pub shr8 : ℕ → ℕ → ℕ
shr8 zero x = x
shr8 (suc n) x = shr8 n (x / 256)

-- The big-endian bytes split at any place.
pub to_be_bytes-add :
    (m n x : ℕ) → to_be_bytes (n + m) x ≡ to_be_bytes m (shr8 n x) ++ to_be_bytes n x
unfolding to_be_bytes
to_be_bytes-add m zero x = rw (zero-add, append-nil)
to_be_bytes-add m (suc n) x =
    rw (suc-add, to_be_bytes-add m n (x / 256))
      (append_assoc (to_be_bytes m (shr8 n (x / 256))) (to_be_bytes n (x / 256)) _)

-- The value of big-endian bytes, read from the left.
abbrev pub from_be : ℕ → Bytes → ℕ
from_be acc [] = acc
from_be acc (b ∷ bs) = from_be (acc * 256 + b) bs

from_be-append : (xs ys : Bytes) (acc : ℕ) → from_be acc (xs ++ ys) ≡ from_be (from_be acc xs) ys
from_be-append [] ys acc = refl
from_be-append (x ∷ xs) ys acc = from_be-append xs ys (acc * 256 + x)

-- Reading back what was written loses only what does not fit.
pub from_be-to_be_bytes : (n x : ℕ) → shr8 n x ≡ 0 → from_be 0 (to_be_bytes n x) ≡ x
unfolding to_be_bytes
from_be-to_be_bytes zero x h = sym h
from_be-to_be_bytes (suc n) x h =
    rw
      (
        from_be-append (to_be_bytes n (x / 256)) ((x % 256) ∷ []) 0,
        from_be-to_be_bytes n (x / 256) h,
      )
      (omega arith)

-- Only the low `n` bytes are written.
pub to_be_bytes-low : (n a b : ℕ) → to_be_bytes n (a + 256 ^ n * b) ≡ to_be_bytes n a
unfolding to_be_bytes
to_be_bytes-low zero a b = refl
to_be_bytes-low (suc n) a b =
    let high : (a + 256 ^ suc n * b) / 256 ≡ a / 256 + 256 ^ n * b = rw pow-suc (omega arith) in
    let low : (a + 256 ^ suc n * b) % 256 ≡ a % 256 = rw pow-suc (omega arith) in
    rw (high, low, to_be_bytes-low n (a / 256) b)

-- The last `n` of the big-endian bytes are the big-endian bytes of the low part.
pub drop-to_be_bytes : (m n x : ℕ) → drop m (to_be_bytes (n + m) x) ≡ to_be_bytes n x
drop-to_be_bytes m n x = rw (to_be_bytes-add m n x) (
    subst (λ k. drop k (to_be_bytes m (shr8 n x) ++ to_be_bytes n x) ≡ to_be_bytes n x)
      (length-to_be_bytes m (shr8 n x))
      (drop-append_left (to_be_bytes m (shr8 n x)) (to_be_bytes n x)))

-- `clamp` yields a value exactly if its bounds do not cross.
pub clamp_lem :
    (x lo hi : ℕ)
    → lo ≤ hi
    → clamp x lo hi ≡ some (if ltb x lo then lo else if ltb hi x then hi else x)
clamp_lem x lo hi h = ground arith

pub clamp_panics : (x lo hi : ℕ) → hi < lo → clamp x lo hi ≡ none
clamp_panics x lo hi h = ground arith

shr8-div : (n x : ℕ) → shr8 n (x / 256) ≡ shr8 n x / 256
shr8-div zero x = refl
shr8-div (suc n) x = shr8-div n (x / 256)

-- Bytes are written back as they were read, above what was read before.
pub to_be_bytes-from_be :
    (bs : Bytes) (acc : ℕ)
    → AllBytes bs
    → (to_be_bytes (length bs) (from_be acc bs) ≡ bs) × (shr8 (length bs) (from_be acc bs) ≡ acc)
unfolding to_be_bytes
to_be_bytes-from_be [] acc h = (refl, refl)
to_be_bytes-from_be (b ∷ bs) acc h =
    let (written, above) = to_be_bytes-from_be bs (acc * 256 + b) h.1 in
    let n = length bs in
    let x = from_be (acc * 256 + b) bs in
    let next : n + 1 ≡ suc n = omega arith in
    let low : (acc * 256 + b) % 256 ≡ b = omega (arith, h.0) in
    let split =
      subst (λ k. to_be_bytes k x ≡ to_be_bytes 1 (shr8 n x) ++ to_be_bytes n x) next
        (to_be_bytes-add 1 n x) in
    (split ∙ rw (above, written, low), rw (shr8-div n x, above) (omega (arith, h.0)))
