-- ===== src/Base/Bits.antt =====
-- `bit_or` and `bit_xor`: one equation for the lowest digit each, and when they are zero.
use Prim.Native.Nat.{
  ℕ, zero, suc, ◌+◌, ◌*◌, ◌/◌, ◌%◌, ◌≤◌, ◌<◌, max, bit_or, bit_xor, digits, bitwise, differ,
  bit_or-bitwise, bit_xor-bitwise,
}
use mathlib.Core.Path.{◌≡◌, refl, sym, ◌∙◌}
use native.Mathlib.Omega.{arith}

-- More fuel than the number has digits changes nothing.
digits_enough :
    (g : ℕ → ℕ) (f : ℕ → ℕ → ℕ) (k l x y : ℕ) → x ≤ k → x ≤ l → digits g f k x y ≡ digits g f l x y
digits_enough g f zero zero x y p q = refl
digits_enough g f (suc k) zero zero y p q = refl
digits_enough g f (suc k) zero (suc x) y p q = absurd (omega arith)
digits_enough g f zero (suc l) zero y p q = refl
digits_enough g f zero (suc l) (suc x) y p q = absurd (omega arith)
digits_enough g f (suc k) (suc l) zero y p q = refl
digits_enough g f (suc k) (suc l) (suc x) y p q =
    rw (digits_enough g f k l (suc x / 2) (y / 2) (omega arith) (omega arith))

bitwise_low :
    (g : ℕ → ℕ) (f : ℕ → ℕ → ℕ) (x y : ℕ)
    → bitwise g f (suc x) y ≡ bitwise g f (suc x / 2) (y / 2) * 2 + f (suc x % 2) (y % 2)
bitwise_low g f x y =
    omega (arith, digits_enough g f x (suc x / 2) (suc x / 2) (y / 2) (omega arith) (omega arith))

bit_or_low : (x y : ℕ) → bit_or x y ≡ bit_or (x / 2) (y / 2) * 2 + max (x % 2) (y % 2)
bit_or_low zero y = simp bit_or-bitwise (omega arith)
bit_or_low (suc x) y = simp bit_or-bitwise (bitwise_low (λ b. b) max x y)

bit_xor_low : (x y : ℕ) → bit_xor x y ≡ bit_xor (x / 2) (y / 2) * 2 + differ (x % 2) (y % 2)
bit_xor_low zero y = simp bit_xor-bitwise (omega arith)
bit_xor_low (suc x) y = simp bit_xor-bitwise (bitwise_low (λ b. b) differ x y)

zero-bit_or : (y : ℕ) → bit_or 0 y ≡ y
zero-bit_or y = simp bit_or-bitwise

zero-bit_xor : (y : ℕ) → bit_xor 0 y ≡ y
zero-bit_xor y = simp bit_xor-bitwise

differ-eq_zero : (x y : ℕ) → x < 2 → y < 2 → differ x y ≡ 0 → x ≡ y
differ-eq_zero zero zero p q e = refl
differ-eq_zero zero (suc y) p q e = absurd (omega arith)
differ-eq_zero (suc x) zero p q e = absurd (omega arith)
differ-eq_zero (suc x) (suc y) p q e = omega arith

bit_or-eq_zero_fuel : (k x y : ℕ) → x + y ≤ k → bit_or x y ≡ 0 → (x ≡ 0) × (y ≡ 0)
bit_or-eq_zero_fuel zero x y p e = omega arith
bit_or-eq_zero_fuel (suc k) zero zero p e = (refl, refl)
bit_or-eq_zero_fuel (suc k) zero (suc y) p e =
    let none_left : suc y ≡ 0 = sym (zero-bit_or (suc y)) ∙ e in absurd (omega arith)
bit_or-eq_zero_fuel (suc k) (suc x) y p e =
    let high : bit_or (suc x / 2) (y / 2) ≡ 0 = omega (arith, bit_or_low (suc x) y) in
    let rest = bit_or-eq_zero_fuel k (suc x / 2) (y / 2) (omega arith) high in
    omega (arith, bit_or_low (suc x) y, rest)

pub bit_or-eq_zero : (x y : ℕ) → bit_or x y ≡ 0 → (x ≡ 0) × (y ≡ 0)
bit_or-eq_zero x y = bit_or-eq_zero_fuel (x + y) x y (omega arith)

bit_xor-eq_zero_fuel : (k x y : ℕ) → x + y ≤ k → bit_xor x y ≡ 0 → x ≡ y
bit_xor-eq_zero_fuel zero x y p e = omega arith
bit_xor-eq_zero_fuel (suc k) zero zero p e = refl
bit_xor-eq_zero_fuel (suc k) zero (suc y) p e =
    let none_left : suc y ≡ 0 = sym (zero-bit_xor (suc y)) ∙ e in absurd (omega arith)
bit_xor-eq_zero_fuel (suc k) (suc x) y p e =
    let high : bit_xor (suc x / 2) (y / 2) ≡ 0 = omega (arith, bit_xor_low (suc x) y) in
    let low : differ (suc x % 2) (y % 2) ≡ 0 = omega (arith, bit_xor_low (suc x) y) in
    let rest = bit_xor-eq_zero_fuel k (suc x / 2) (y / 2) (omega arith) high in
    omega (arith, rest, differ-eq_zero (suc x % 2) (y % 2) (omega arith) (omega arith) low)

pub bit_xor-eq_zero : (x y : ℕ) → bit_xor x y ≡ 0 → x ≡ y
bit_xor-eq_zero x y = bit_xor-eq_zero_fuel (x + y) x y (omega arith)

differ_self : (x : ℕ) → x < 2 → differ x x ≡ 0
differ_self zero p = refl
differ_self (suc zero) p = refl
differ_self (suc (suc x)) p = absurd (omega arith)

bit_xor_self_fuel : (k x : ℕ) → x ≤ k → bit_xor x x ≡ 0
bit_xor_self_fuel k zero p = refl
bit_xor_self_fuel zero (suc x) p = absurd (omega arith)
bit_xor_self_fuel (suc k) (suc x) p = omega (
  arith,
  bit_xor_low (suc x) (suc x),
  bit_xor_self_fuel k (suc x / 2) (omega arith),
  differ_self (suc x % 2) (omega arith),
)

pub bit_xor_self : (x : ℕ) → bit_xor x x ≡ 0
bit_xor_self x = bit_xor_self_fuel x x (omega arith)
