-- ===== src/Base/Bits.antt =====
-- `x & (2 ^ k - 1)` is the remainder by `2 ^ k`.
use Prim.Native.Nat.{
  ℕ, zero, suc, ◌+◌, ◌-◌, ◌*◌, ◌/◌, ◌%◌, ◌^◌, ◌≤◌, ◌<◌, ◌∣◌, min, bit_and, digits, bit_and-bitwise,
}
use mathlib.Core.Path.{◌≡◌, refl, ap, ◌∙◌}
use native.Mathlib.Nat.{
  pow-succ', one-le-pow, mod-mod_of_dvd, mod-eq-sub-mod, mod-eq_of_lt, mod-add-mod, mod-lt,
  div-add-mod, mul-add-mod_self_left,
}
use mathlib.Core.Logic.{◌≢◌}
use native.Mathlib.Decide.{dec_lt}
use native.Mathlib.Omega.{arith}

abbrev lowest : ℕ → ℕ → ℕ → ℕ
lowest fuel a b = digits (λ _. zero) min fuel a b

-- Fuel beyond the first number changes nothing.
lowest_fuel : (f g a b : ℕ) → a ≤ f → a ≤ g → lowest f a b ≡ lowest g a b
lowest_fuel zero zero zero b p q = refl
lowest_fuel zero (suc g) zero b p q = refl
lowest_fuel (suc f) zero zero b p q = refl
lowest_fuel (suc f) (suc g) zero b p q = refl
lowest_fuel zero g (suc a) b p q = absurd (omega arith)
lowest_fuel (suc f) zero (suc a) b p q = absurd (omega arith)
lowest_fuel (suc f) (suc g) (suc a) b p q =
    omega (arith, lowest_fuel f g (suc a / 2) (b / 2) (omega arith) (omega arith))

-- The lowest digit, and the digits above it.
bit_and_step : (a b : ℕ) → bit_and a b ≡ bit_and (a / 2) (b / 2) * 2 + min (a % 2) (b % 2)
bit_and_step zero b = omega (arith, bit_and-bitwise 0 b, bit_and-bitwise 0 (b / 2))
bit_and_step (suc a) b = omega (
  arith,
  bit_and-bitwise (suc a) b,
  bit_and-bitwise (suc a / 2) (b / 2),
  lowest_fuel a (suc a / 2) (suc a / 2) (b / 2) (omega arith) (omega arith),
)

bit_and-zero_fuel : (f a : ℕ) → a ≤ f → bit_and a 0 ≡ 0
bit_and-zero_fuel f zero h = bit_and-bitwise 0 0
bit_and-zero_fuel zero (suc a) h = absurd (omega arith)
bit_and-zero_fuel (suc f) (suc a) h =
    omega (arith, bit_and_step (suc a) 0, bit_and-zero_fuel f (suc a / 2) (omega arith))

-- Remainders by twice a number, digit by digit.
mod_double : (a c : ℕ) → 0 < c → a % (2 * c) ≡ a / 2 % c * 2 + a % 2
mod_double a c h =
    let s : ℕ = a / 2 % c * 2 + a % 2 in
    let e : a ≡ 2 * c * (a / 2 / c) + s = omega (arith, div-add-mod (a / 2) c) in
    let r : a / 2 % c < c = mod-lt (a / 2) h in
    ap (λ x. x % (2 * c)) e
    ∙ mul-add-mod_self_left (2 * c) (a / 2 / c) s
    ∙ mod-eq_of_lt (let l : s < 2 * c = omega arith in l)

pub bit_and_mask : (k a : ℕ) → bit_and a (2 ^ k - 1) ≡ a % 2 ^ k
bit_and_mask zero a = omega (arith, bit_and-zero_fuel a a (omega arith))
bit_and_mask (suc k) a =
    let pos : 1 ≤ 2 ^ k = one-le-pow k 2 (omega arith) in
    let double : 2 ^ suc k ≡ 2 * 2 ^ k = pow-succ' 2 k in
    let above : (2 ^ suc k - 1) / 2 ≡ 2 ^ k - 1 = omega arith in
    omega (
      arith,
      bit_and_step a (2 ^ suc k - 1),
      ap (bit_and (a / 2)) above,
      bit_and_mask k (a / 2),
      mod_double a (2 ^ k) pos,
      ap (λ x. a % x) double,
    )

two-pow-dvd : (d k n : ℕ) → n ≡ k + d → 2 ^ k ∣ 2 ^ n
two-pow-dvd d k n e = ∣ (2 ^ d, ap (λ x. 2 ^ x) e ∙ two-pow-add d k) ∣₁
  where
    two-pow-add : (d k : ℕ) → 2 ^ (k + d) ≡ 2 ^ k * 2 ^ d
    two-pow-add zero k = let e : k + 0 ≡ k = omega arith in ap (λ x. 2 ^ x) e ∙ omega arith
    two-pow-add (suc d) k =
        let e : k + suc d ≡ suc (k + d) = omega arith in
        ap (λ x. 2 ^ x) e
        ∙ omega (
          arith,
          pow-succ' 2 (k + d),
          pow-succ' 2 d,
          two-pow-add d k,
          ap (λ (x : ℕ). 2 ^ k * x) (pow-succ' 2 d),
        )

-- A remainder by a power of two is not changed by wrapping at a larger one.
pub mod_wrap : (k n a : ℕ) → k ≤ n → a % 2 ^ n % 2 ^ k ≡ a % 2 ^ k
mod_wrap k n a h = mod-mod_of_dvd (2 ^ k) a (two-pow-dvd (n - k) k n (omega arith))

-- Two numbers less than `c` apart have different remainders.
pub mod_apart : (c x d : ℕ) → 0 < d → d < c → (x + d) % c ≢ x % c
mod_apart c x d p h e = elim (dec_lt (x % c + d) c) [
  | yes l ↦ omega (arith, mod-add-mod x c d, mod-eq_of_lt l)
  | no l ↦ omega (
    arith,
    mod-add-mod x c d,
    mod-eq-sub-mod {n = x % c + d} {m = c} (omega arith),
    mod-eq_of_lt {n = x % c + d - c} {m = c} (omega (arith, mod-lt x {m = c} (omega arith))),
    mod-lt x {m = c} (omega arith),
  )
]
