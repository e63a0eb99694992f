-- ===== src/Prelude/Bits.antt =====
-- Laws of the native `bit_and` and `bit_or` at variables, from their digit recursions: what a mask
-- of consecutive ones reads, sets and clears in a machine word.
use Prim.Native.Nat.{
  ℕ, zero, suc, ◌+◌, ◌-◌, ◌*◌, ◌/◌, ◌%◌, ◌^◌, ◌≤◌, ◌<◌, min, max, bit_and, bit_or, digits,
  bit_and-bitwise, bit_or-bitwise,
}
use mathlib.Core.Path.{◌≡◌, refl, sym, ap}
use native.Mathlib.Nat.{pow-suc, one-le-pow, mul_comm, mul_assoc, div-div-eq-div-mul}
use native.Mathlib.Omega.{arith}

-- Both operations are `digits` with fuel; more fuel than the first argument changes nothing.
digits_fuel :
    (empty : ℕ → ℕ) (op : ℕ → ℕ → ℕ) (n m a b : ℕ)
    → a ≤ n
    → a ≤ m
    → digits empty op n a b ≡ digits empty op m a b
digits_fuel empty op zero zero a b p q = refl
digits_fuel empty op zero (suc m) zero b p q = refl
digits_fuel empty op zero (suc m) (suc a) b p q = absurd (omega arith)
digits_fuel empty op (suc n) zero zero b p q = refl
digits_fuel empty op (suc n) zero (suc a) b p q = absurd (omega arith)
digits_fuel empty op (suc n) (suc m) zero b p q = refl
digits_fuel empty op (suc n) (suc m) (suc a) b p q =
    omega (arith, digits_fuel empty op n m (suc a / 2) (b / 2) (omega arith) (omega arith))

and_zero : (b : ℕ) → bit_and 0 b ≡ 0
and_zero b = bit_and-bitwise 0 b

or_zero : (b : ℕ) → bit_or 0 b ≡ b
or_zero b = bit_or-bitwise 0 b

-- The lowest digit, and the rest.
pub and_digit : (a b : ℕ) → bit_and a b ≡ bit_and (a / 2) (b / 2) * 2 + min (a % 2) (b % 2)
and_digit zero b = omega (arith, and_zero b, and_zero (b / 2))
and_digit (suc a) b = omega (
  arith,
  bit_and-bitwise (suc a) b,
  bit_and-bitwise (suc a / 2) (b / 2),
  digits_fuel (λ b. zero) min a (suc a / 2) (suc a / 2) (b / 2) (omega arith) (omega arith),
)

pub or_digit : (a b : ℕ) → bit_or a b ≡ bit_or (a / 2) (b / 2) * 2 + max (a % 2) (b % 2)
or_digit zero b = omega (arith, or_zero b, or_zero (b / 2))
or_digit (suc a) b = omega (
  arith,
  bit_or-bitwise (suc a) b,
  bit_or-bitwise (suc a / 2) (b / 2),
  digits_fuel (λ b. b) max a (suc a / 2) (suc a / 2) (b / 2) (omega arith) (omega arith),
)

-- `|` adds what is not set yet.
or_and_fuel : (n a b : ℕ) → a ≤ n → bit_or a b + bit_and a b ≡ a + b
or_and_fuel n zero b h = omega (arith, or_zero b, and_zero b)
or_and_fuel zero (suc a) b h = absurd (omega arith)
or_and_fuel (suc n) (suc a) b h = omega (
  arith,
  or_digit (suc a) b,
  and_digit (suc a) b,
  or_and_fuel n (suc a / 2) (b / 2) (omega arith),
)

pub or-and_add : (a b : ℕ) → bit_or a b + bit_and a b ≡ a + b
or-and_add a b = or_and_fuel a a b (omega arith)

-- `& ~mask` takes away what the mask reads, in a word of `n` bits.
pub and-complement :
    (n a m : ℕ) → a < 2 ^ n → m < 2 ^ n → bit_and a (2 ^ n - 1 - m) + bit_and a m ≡ a
and-complement zero a m p q = let e : a ≡ 0 = omega arith in rw e (omega (arith, and_zero _))
and-complement (suc n) a m p q =
    let half : (2 ^ suc n - 1 - m) / 2 ≡ 2 ^ n - 1 - m / 2 = omega (arith, pow-suc 2 n) in
    omega (
      arith,
      pow-suc 2 n,
      and_digit a m,
      and_digit a (2 ^ suc n - 1 - m),
      ap (bit_and (a / 2)) half,
      and-complement n (a / 2) (m / 2) (omega (arith, pow-suc 2 n)) (omega (arith, pow-suc 2 n)),
    )

-- `n` ones from position `k`.
abbrev pub ones : ℕ → ℕ → ℕ
ones n k = (2 ^ n - 1) * 2 ^ k

and_zero_right : (n a : ℕ) → a ≤ n → bit_and a 0 ≡ 0
and_zero_right n zero h = and_zero 0
and_zero_right zero (suc a) h = absurd (omega arith)
and_zero_right (suc n) (suc a) h =
    omega (arith, and_digit (suc a) 0, and_zero_right n (suc a / 2) (omega arith))

mod_double : (a p : ℕ) → 0 < p → a / 2 % p * 2 + a % 2 ≡ a % (p * 2)
mod_double a p h = grind arith

and_low_step : (a p : ℕ) → 0 < p → bit_and a (p * 2 - 1) ≡ bit_and (a / 2) (p - 1) * 2 + a % 2
and_low_step a p h =
    let half : (p * 2 - 1) / 2 ≡ p - 1 = omega arith in
    omega (arith, and_digit a (p * 2 - 1), ap (bit_and (a / 2)) half)

pub and_low : (n a : ℕ) → bit_and a (2 ^ n - 1) ≡ a % 2 ^ n
and_low zero a = omega (arith, and_zero_right a a (omega arith))
and_low (suc n) a =
    let pos : 0 < 2 ^ n = one-le-pow n 2 (omega arith) in
    rw (pow-suc 2 n)
      (omega (arith, and_low_step a (2 ^ n) pos, and_low n (a / 2), mod_double a (2 ^ n) pos))

and_shift : (k a m : ℕ) → bit_and a (m * 2 ^ k) ≡ bit_and (a / 2 ^ k) m * 2 ^ k
and_shift zero a m =
    let one : m * 2 ^ 0 ≡ m = omega arith in
    let whole : a / 2 ^ 0 ≡ a = omega arith in rw (one, whole) (omega arith)
and_shift (suc k) a m =
    let twice : m * 2 ^ suc k ≡ m * 2 ^ k * 2 = rw (pow-suc 2 k) (omega arith) in
    let halves : a / 2 ^ suc k ≡ a / 2 / 2 ^ k =
      rw (pow-suc 2 k, mul_comm (2 ^ k) 2) (sym (div-div-eq-div-mul a 2 (2 ^ k))) in
    let half : m * 2 ^ k * 2 / 2 ≡ m * 2 ^ k = omega arith in
    rw (twice, halves, pow-suc 2 k)
      (omega (
        arith,
        and_digit a (m * 2 ^ k * 2),
        ap (bit_and (a / 2)) half,
        ap (λ (t : ℕ). t * 2) (and_shift k (a / 2) m),
      ))

-- What such a mask reads.
pub and-ones : (n k a : ℕ) → bit_and a (ones n k) ≡ a / 2 ^ k % 2 ^ n * 2 ^ k
and-ones n k a = rw (and_shift, and_low) refl

-- Masks with no bit in common read side by side.
and_disjoint_fuel :
    (n a m k : ℕ) → a ≤ n → bit_and m k ≡ 0 → bit_and a (m + k) ≡ bit_and a m + bit_and a k
and_disjoint_fuel n zero m k h e = omega (arith, and_zero (m + k), and_zero m, and_zero k)
and_disjoint_fuel zero (suc a) m k h e = absurd (omega arith)
and_disjoint_fuel (suc n) (suc a) m k h e =
    let halves : (m + k) / 2 ≡ m / 2 + k / 2 = omega (arith, and_digit m k) in
    omega (
      arith,
      and_digit m k,
      and_digit (suc a) (m + k),
      and_digit (suc a) m,
      and_digit (suc a) k,
      ap (bit_and (suc a / 2)) halves,
      and_disjoint_fuel n (suc a / 2) (m / 2) (k / 2) (omega arith) (omega (arith, and_digit m k)),
    )

pub and-disjoint : (a m k : ℕ) → bit_and m k ≡ 0 → bit_and a (m + k) ≡ bit_and a m + bit_and a k
and-disjoint a m k e = and_disjoint_fuel a a m k (omega arith) e

and_le_fuel : (n a b : ℕ) → a ≤ n → bit_and a b ≤ b
and_le_fuel n zero b h = omega (arith, and_zero b)
and_le_fuel zero (suc a) b h = absurd (omega arith)
and_le_fuel (suc n) (suc a) b h =
    omega (arith, and_digit (suc a) b, and_le_fuel n (suc a / 2) (b / 2) (omega arith))

pub and-le : (a b : ℕ) → bit_and a b ≤ b
and-le a b = and_le_fuel a a b (omega arith)

pub shift-and : (k a b : ℕ) → b < 2 ^ k → bit_and (a * 2 ^ k) b ≡ 0
shift-and zero a b h = omega (arith, and-le (a * 1) b)
shift-and (suc k) a b h =
    let x = a * 2 ^ k in
    let double : a * 2 ^ suc k ≡ x * 2 = rw (pow-suc 2 k) (sym (mul_assoc a (2 ^ k) 2)) in
    let half : x * 2 / 2 ≡ x = omega arith in
    rw double (
      omega (
        arith,
        and_digit (x * 2) b,
        ap (λ y. bit_and y (b / 2)) half,
        shift-and k a (b / 2) (omega (arith, pow-suc 2 k)),
      ))

and_comm_fuel : (n a b : ℕ) → a ≤ n → bit_and a b ≡ bit_and b a
and_comm_fuel zero zero b h = omega (arith, and_zero b, and-le b 0)
and_comm_fuel zero (suc a) b h = absurd (omega arith)
and_comm_fuel (suc n) a b h =
    omega (arith, and_digit a b, and_digit b a, and_comm_fuel n (a / 2) (b / 2) (omega arith))

pub and_comm : (a b : ℕ) → bit_and a b ≡ bit_and b a
and_comm a b = and_comm_fuel a a b (omega arith)
