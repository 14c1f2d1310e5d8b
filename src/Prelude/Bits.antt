-- ===== src/Prelude/Bits.antt =====
-- Laws of `&`, `|` and `^` on numbers, from the digit recursion that these operations stand for.
use Prim.Native.Nat.{
  ℕ, zero, suc, ◌+◌, ◌-◌, ◌*◌, ◌/◌, ◌%◌, ◌^◌, ◌≤◌, ◌<◌, min, max, bit_and, bit_or, bit_xor, digits,
  bitwise, differ, bit_and-bitwise, bit_or-bitwise, bit_xor-bitwise,
}
use mathlib.Core.Path.{◌≡◌, refl, ap, ap₂, sym, ◌∙◌}
use native.Mathlib.Omega.{arith}
use native.Mathlib.Nat.{
  pow-suc, one-le-pow, mod-lt, mod-eq_of_lt, add-mul-mod_self_left, div-add-mod,
}

module _ (z : ℕ → ℕ) (f : ℕ → ℕ → ℕ) where
  -- The count of digits to go is immaterial once it is large enough.
  digits-count : (n m a b : ℕ) → a ≤ n → a ≤ m → digits z f n a b ≡ digits z f m a b
  digits-count zero zero a b p q = refl
  digits-count zero (suc m) zero b p q = refl
  digits-count zero (suc m) (suc a) b p q = absurd (omega arith)
  digits-count (suc n) zero zero b p q = refl
  digits-count (suc n) zero (suc a) b p q = absurd (omega arith)
  digits-count (suc n) (suc m) zero b p q = refl
  digits-count (suc n) (suc m) (suc a) b p q =
      ap (λ t. t * 2 + f (suc a % 2) (b % 2))
        (digits-count n m (suc a / 2) (b / 2) (omega arith) (omega arith))

  bitwise_halves :
      (a b : ℕ)
      → z b ≡ z (b / 2) * 2 + f 0 (b % 2)
      → bitwise z f a b ≡ bitwise z f (a / 2) (b / 2) * 2 + f (a % 2) (b % 2)
  bitwise_halves zero b h = h
  bitwise_halves (suc a) b h =
      ap (λ t. t * 2 + f (suc a % 2) (b % 2))
        (digits-count a (suc a / 2) (suc a / 2) (b / 2) (omega arith) (omega arith))

bit_and_halves : (a b : ℕ) → bit_and a b ≡ bit_and (a / 2) (b / 2) * 2 + min (a % 2) (b % 2)
bit_and_halves a b =
    bit_and-bitwise a b
    ∙ bitwise_halves (λ b. 0) min a b (omega arith)
    ∙ ap (λ t. t * 2 + min (a % 2) (b % 2)) (sym (bit_and-bitwise (a / 2) (b / 2)))

bit_or_halves : (a b : ℕ) → bit_or a b ≡ bit_or (a / 2) (b / 2) * 2 + max (a % 2) (b % 2)
bit_or_halves a b =
    bit_or-bitwise a b
    ∙ bitwise_halves (λ b. b) max a b (omega arith)
    ∙ ap (λ t. t * 2 + max (a % 2) (b % 2)) (sym (bit_or-bitwise (a / 2) (b / 2)))

bit_xor_halves : (a b : ℕ) → bit_xor a b ≡ bit_xor (a / 2) (b / 2) * 2 + differ (a % 2) (b % 2)
bit_xor_halves a b =
    bit_xor-bitwise a b
    ∙ bitwise_halves (λ b. b) differ a b (omega arith)
    ∙ ap (λ t. t * 2 + differ (a % 2) (b % 2)) (sym (bit_xor-bitwise (a / 2) (b / 2)))

differ_one : (b : ℕ) → b < 2 → differ b 1 ≡ 1 - b
differ_one zero h = refl
differ_one (suc zero) h = refl
differ_one (suc (suc b)) h = absurd (omega arith)

ones_halves : (k : ℕ) → ((2 ^ suc k - 1) / 2 ≡ 2 ^ k - 1) × ((2 ^ suc k - 1) % 2 ≡ 1)
ones_halves k = omega (arith, pow-suc 2 k, one-le-pow k 2 (omega arith))

-- A number below `2 ^ k` with its `k` bits inverted.
pub bit_xor_ones : (k a : ℕ) → a < 2 ^ k → bit_xor a (2 ^ k - 1) ≡ 2 ^ k - 1 - a
bit_xor_ones zero zero h = refl
bit_xor_ones zero (suc a) h = absurd (omega arith)
bit_xor_ones (suc k) a h =
    bit_xor_halves a (2 ^ suc k - 1)
    ∙ ap₂ (λ q r. bit_xor (a / 2) q * 2 + differ (a % 2) r) (ones_halves k).0 (ones_halves k).1
    ∙ ap₂ (λ q r. q * 2 + r) (bit_xor_ones k (a / 2) (omega (arith, pow-suc 2 k)))
        (differ_one (a % 2) (omega arith))
    ∙ omega (arith, pow-suc 2 k, one-le-pow k 2 (omega arith))

below_two_pow : (k : ℕ) → k < 2 ^ k
below_two_pow zero = omega arith
below_two_pow (suc k) = omega (arith, pow-suc 2 k, below_two_pow k)

bit_xor-zero_below : (k a : ℕ) → a < 2 ^ k → bit_xor a 0 ≡ a
bit_xor-zero_below zero zero h = refl
bit_xor-zero_below zero (suc a) h = absurd (omega arith)
bit_xor-zero_below (suc k) a h =
    bit_xor_halves a 0
    ∙ ap₂ (λ q r. q * 2 + r) (bit_xor-zero_below k (a / 2) (omega (arith, pow-suc 2 k)))
        (differ_zero (a % 2))
    ∙ omega arith
  where
    differ_zero : (b : ℕ) → differ b 0 ≡ b
    differ_zero zero = refl
    differ_zero (suc b) = refl

pub bit_xor-zero : (a : ℕ) → bit_xor a 0 ≡ a
bit_xor-zero a = bit_xor-zero_below a a (below_two_pow a)

bit_or-zero_below : (k a : ℕ) → a < 2 ^ k → bit_or a 0 ≡ a
bit_or-zero_below zero zero h = refl
bit_or-zero_below zero (suc a) h = absurd (omega arith)
bit_or-zero_below (suc k) a h =
    omega (arith, bit_or_halves a 0, bit_or-zero_below k (a / 2) (omega (arith, pow-suc 2 k)))

pub bit_or-zero : (a : ℕ) → bit_or a 0 ≡ a
bit_or-zero a = bit_or-zero_below a a (below_two_pow a)

bit_and-zero_below : (k a : ℕ) → a < 2 ^ k → bit_and a 0 ≡ 0
bit_and-zero_below zero zero h = refl
bit_and-zero_below zero (suc a) h = absurd (omega arith)
bit_and-zero_below (suc k) a h =
    omega (arith, bit_and_halves a 0, bit_and-zero_below k (a / 2) (omega (arith, pow-suc 2 k)))

pub bit_and-zero : (a : ℕ) → bit_and a 0 ≡ 0
bit_and-zero a = bit_and-zero_below a a (below_two_pow a)

low_halves : (k a : ℕ) → a / 2 % 2 ^ k * 2 + a % 2 ≡ a % 2 ^ suc k
low_halves k a =
    sym (mod-eq_of_lt (omega (arith, pow-suc 2 k, mod-lt (a / 2) (one-le-pow k 2 (omega arith)))))
    ∙ sym (add-mul-mod_self_left (a / 2 % 2 ^ k * 2 + a % 2) (2 ^ suc k) (a / 2 / 2 ^ k))
    ∙ ap (λ t. t % 2 ^ suc k)
        (rw (pow-suc 2 k) (omega (arith, ap (λ (t : ℕ). t * 2) (div-add-mod (a / 2) (2 ^ k)))))

-- The low `k` bits.
pub bit_and_mask : (k a : ℕ) → bit_and a (2 ^ k - 1) ≡ a % 2 ^ k
bit_and_mask zero a = bit_and-zero a ∙ omega arith
bit_and_mask (suc k) a =
    bit_and_halves a (2 ^ suc k - 1)
    ∙ ap₂ (λ q r. bit_and (a / 2) q * 2 + min (a % 2) r) (ones_halves k).0 (ones_halves k).1
    ∙ omega (arith, bit_and_mask k (a / 2), low_halves k a)

-- Two numbers with no bit in common, the first a multiple of `2 ^ k` and the second below it.
pub bit_or_fields : (k q r : ℕ) → r < 2 ^ k → bit_or (q * 2 ^ k) r ≡ q * 2 ^ k + r
bit_or_fields zero q zero h = bit_or-zero (q * 1) ∙ omega arith
bit_or_fields zero q (suc r) h = absurd (omega arith)
bit_or_fields (suc k) q r h =
    bit_or_halves (q * 2 ^ suc k) r
    ∙ ap (λ t. bit_or t (r / 2) * 2 + max (q * 2 ^ suc k % 2) (r % 2)) half
    ∙ rw (pow-suc 2 k) (omega (arith, bit_or_fields k q (r / 2) (omega (arith, pow-suc 2 k))))
  where
    half : q * 2 ^ suc k / 2 ≡ q * 2 ^ k
    half = rw (pow-suc 2 k) (omega arith)

max_bounds : (a b : ℕ) → a < 2 → b < 2 → (a ≤ max a b) × (b ≤ max a b) × (max a b < 2)
max_bounds zero zero h k = omega arith
max_bounds zero (suc zero) h k = omega arith
max_bounds (suc zero) zero h k = omega arith
max_bounds (suc zero) (suc zero) h k = omega arith
max_bounds zero (suc (suc b)) h k = absurd (omega arith)
max_bounds (suc zero) (suc (suc b)) h k = absurd (omega arith)
max_bounds (suc (suc a)) b h k = absurd (omega arith)

-- Both numbers are below what they give together, which has no more bits than they have.
pub bit_or_bounds :
    (k a b : ℕ) → a < 2 ^ k → b < 2 ^ k → (a ≤ bit_or a b) × (b ≤ bit_or a b) × (bit_or a b < 2 ^ k)
bit_or_bounds zero zero zero h g = omega (arith, bit_or-zero 0)
bit_or_bounds zero zero (suc b) h g = absurd (omega arith)
bit_or_bounds zero (suc a) b h g = absurd (omega arith)
bit_or_bounds (suc k) a b h g = omega (
  arith,
  pow-suc 2 k,
  bit_or_halves a b,
  max_bounds (a % 2) (b % 2) (omega arith) (omega arith),
  bit_or_bounds k (a / 2) (b / 2) (omega (arith, pow-suc 2 k)) (omega (arith, pow-suc 2 k)),
)
