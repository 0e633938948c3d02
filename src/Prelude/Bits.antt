-- ===== src/Prelude/Bits.antt =====
-- Masks and disjoint fields of machine words as arithmetic, for every width.
use Prim.Native.Nat.{
  ℕ, zero, suc, ◌+◌, ◌-◌, ◌*◌, ◌/◌, ◌%◌, ◌^◌, ◌≤◌, ◌<◌, min, max, bit_and, bit_or, digits,
  bit_and-bitwise, bit_or-bitwise,
}
use mathlib.Core.Path.{◌≡◌, refl, sym, ap, ◌∙◌}
use native.Mathlib.Nat.{pow-suc, one-le-pow, div-eq_of_lt-le, mod-lt, div-add-mod', add-zero}
use native.Mathlib.Decide.{ℕ_discrete}
use native.Mathlib.Omega.{arith}

-- An operation on binary digits, `f` on two of them and `z` past the end of the first number, does
-- not depend on the count of rounds, once there are enough.
module _ (z : ℕ → ℕ) (f : ℕ → ℕ → ℕ) where
  one_more_round : (n a b : ℕ) → a ≤ n → digits z f (suc n) a b ≡ digits z f n a b
  one_more_round zero zero b h = refl
  one_more_round (suc n) zero b h = refl
  one_more_round zero (suc a) b h = absurd (omega arith)
  one_more_round (suc n) (suc a) b h =
      ap (λ t. t * 2 + f (suc a % 2) (b % 2)) (one_more_round n (suc a / 2) (b / 2) (omega arith))

  more_rounds : (n a b : ℕ) → a ≤ n → digits z f n a b ≡ digits z f a a b
  more_rounds zero zero b h = refl
  more_rounds zero (suc a) b h = absurd (omega arith)
  more_rounds (suc n) a b h = elim (ℕ_discrete a (suc n)) [
    | yes e ↦ ap (λ m. digits z f m a b) (sym e)
    | no e ↦ one_more_round n a b (omega arith) ∙ more_rounds n a b (omega arith)
  ]

  -- The lowest digit of the result, and the operation on the halves.
  lowest_digit :
      (a b : ℕ)
      → digits z f (suc a) (suc a) b
        ≡ digits z f (suc a / 2) (suc a / 2) (b / 2) * 2 + f (suc a % 2) (b % 2)
  lowest_digit a b =
      ap (λ t. t * 2 + f (suc a % 2) (b % 2)) (more_rounds a (suc a / 2) (b / 2) (omega arith))

bit_or-halves : (a b : ℕ) → bit_or a b ≡ bit_or (a / 2) (b / 2) * 2 + max (a % 2) (b % 2)
bit_or-halves zero b = omega (arith, bit_or-bitwise 0 b, bit_or-bitwise 0 (b / 2))
bit_or-halves (suc a) b = omega (
  arith,
  bit_or-bitwise (suc a) b,
  bit_or-bitwise (suc a / 2) (b / 2),
  lowest_digit (λ t. t) max a b,
)

bit_and-halves : (a b : ℕ) → bit_and a b ≡ bit_and (a / 2) (b / 2) * 2 + min (a % 2) (b % 2)
bit_and-halves zero b = omega (arith, bit_and-bitwise 0 b, bit_and-bitwise 0 (b / 2))
bit_and-halves (suc a) b = omega (
  arith,
  bit_and-bitwise (suc a) b,
  bit_and-bitwise (suc a / 2) (b / 2),
  lowest_digit (λ t. 0) min a b,
)

-- With nothing on the right, by halving as often as it takes: `n` bounds the number.
right_zero : (n a : ℕ) → a ≤ n → (bit_or a 0 ≡ a) × (bit_and a 0 ≡ 0)
right_zero n zero h = (bit_or-bitwise 0 0, bit_and-bitwise 0 0)
right_zero zero (suc a) h = absurd (omega arith)
right_zero (suc n) (suc a) h =
    let half = right_zero n (suc a / 2) (omega arith) in
    (
      omega (arith, bit_or-halves (suc a) 0, half.0),
      omega (arith, bit_and-halves (suc a) 0, half.1),
    )

-- A high field and a low one that do not meet: `|` is `+`.
pub bit_or-disjoint : (k q r : ℕ) → r < 2 ^ k → bit_or (q * 2 ^ k) r ≡ q * 2 ^ k + r
bit_or-disjoint zero q r h = ground (arith, (right_zero q q (omega arith)).0)
bit_or-disjoint (suc k) q r h =
    let half : q * 2 ^ suc k / 2 ≡ q * 2 ^ k = omega (arith, ap (λ t. q * t) (pow-suc 2 k)) in
    let even : q * 2 ^ suc k ≡ q * 2 ^ k * 2 = omega (arith, ap (λ t. q * t) (pow-suc 2 k)) in
    ground (
      arith,
      half,
      even,
      bit_or-halves (q * 2 ^ suc k) r,
      bit_or-disjoint k q (r / 2) (omega (arith, pow-suc 2 k)),
    )

-- A remainder is determined by its equation.
pub mod_unique : (x m q r : ℕ) → r < m → x ≡ q * m + r → x % m ≡ r
mod_unique x m q r h e = grind (arith, div-eq_of_lt-le)

mod_double : (x p : ℕ) → 0 < p → x % (p * 2) ≡ x / 2 % p * 2 + x % 2
mod_double x p h =
    mod_unique x (p * 2) (x / 2 / p) (x / 2 % p * 2 + x % 2) (omega (arith, mod-lt (x / 2) h))
      (omega (arith, div-add-mod' (x / 2) p))

-- A mask of k ones keeps the low k digits.
pub bit_and_mask : (k x : ℕ) → bit_and x (2 ^ k - 1) ≡ x % 2 ^ k
bit_and_mask zero x = omega (arith, (right_zero x x (omega arith)).1)
bit_and_mask (suc k) x =
    let positive = one-le-pow k 2 (omega arith) in
    let half : (2 ^ suc k - 1) / 2 ≡ 2 ^ k - 1 = omega (arith, pow-suc 2 k) in
    let odd : (2 ^ suc k - 1) % 2 ≡ 1 = omega (arith, pow-suc 2 k) in
    ground (
      arith,
      half,
      odd,
      pow-suc 2 k,
      bit_and-halves x (2 ^ suc k - 1),
      bit_and_mask k (x / 2),
      mod_double x (2 ^ k) positive,
    )

pub pow-add : (a b : ℕ) → 2 ^ (a + b) ≡ 2 ^ a * 2 ^ b
pow-add a zero = ground (arith, add-zero a)
pow-add a (suc b) =
    let grow : a + suc b ≡ suc (a + b) = omega arith in
    rw grow (
      omega (arith, pow-suc 2 (a + b), pow-suc 2 b, pow-add a b, ap (λ t. 2 ^ a * t) (pow-suc 2 b)))

-- A quotient is determined by its equation.
pub div_unique : (x m q r : ℕ) → r < m → x ≡ q * m + r → x / m ≡ q
div_unique x m q r h e = div-eq_of_lt-le m (omega arith) (omega arith)

pub two_pow_pos : (k : ℕ) → 0 < 2 ^ k
two_pow_pos k = one-le-pow k 2 (omega arith)

-- A pair (q, r) with both parts in range lies below the product of the ranges.
pub pair-lt : (q r m n : ℕ) → q < n → r < m → q * m + r < n * m
pair-lt q r m n hq hr = grind arith

-- Digits above those of the other number do not matter.
pub bit_and-low : (k x n m : ℕ) → x < 2 ^ k → bit_and x (n * 2 ^ k + m) ≡ bit_and x m
bit_and-low zero x n m h =
    let nothing : x ≡ 0 = omega arith in
    rw nothing (bit_and-bitwise 0 (n * 1 + m) ∙ sym (bit_and-bitwise 0 m))
bit_and-low (suc k) x n m h =
    let double = ap (λ t. n * t) (pow-suc 2 k) in
    let half : (n * 2 ^ suc k + m) / 2 ≡ n * 2 ^ k + m / 2 = omega (arith, double) in
    let odd : (n * 2 ^ suc k + m) % 2 ≡ m % 2 = omega (arith, double) in
    ground (
      arith,
      half,
      odd,
      bit_and-halves x (n * 2 ^ suc k + m),
      bit_and-halves x m,
      bit_and-low k (x / 2) n (m / 2) (omega (arith, pow-suc 2 k)),
    )

-- A digit that both numbers have at the top.
pub bit_and-top :
    (k x m : ℕ) → x < 2 ^ k → m < 2 ^ k → bit_and (2 ^ k + x) (2 ^ k + m) ≡ 2 ^ k + bit_and x m
bit_and-top zero x m h h' =
    let nothing : x ≡ 0 = omega arith in
    let no_mask : m ≡ 0 = omega arith in rw (nothing, no_mask) refl
bit_and-top (suc k) x m h h' =
    let double = pow-suc 2 k in
    let half : (2 ^ suc k + x) / 2 ≡ 2 ^ k + x / 2 = omega (arith, double) in
    let odd : (2 ^ suc k + x) % 2 ≡ x % 2 = omega (arith, double) in
    let half' : (2 ^ suc k + m) / 2 ≡ 2 ^ k + m / 2 = omega (arith, double) in
    let odd' : (2 ^ suc k + m) % 2 ≡ m % 2 = omega (arith, double) in
    ground (
      arith,
      double,
      half,
      odd,
      half',
      odd',
      bit_and-halves (2 ^ suc k + x) (2 ^ suc k + m),
      bit_and-halves x m,
      bit_and-top k (x / 2) (m / 2) (omega (arith, double)) (omega (arith, double)),
    )
