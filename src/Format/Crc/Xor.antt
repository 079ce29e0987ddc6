-- ===== src/Format/Crc/Xor.antt =====
-- Laws of exclusive or on the binary digits of a number, from the recursion that it stands for.
use Prim.Native.Nat.{bit_xor, digits, bit_xor-bitwise, differ}
use gitdb.Base.{ℕ, zero, suc, ◌+◌, ◌-◌, ◌*◌, ◌/◌, ◌%◌, ◌≤◌, ◌≡◌, refl, sym, ap, ◌∙◌, arith}

abbrev xor_digits : ℕ → ℕ → ℕ → ℕ
xor_digits n a b = digits (λ b. b) differ n a b

xor_digits-nothing : (count b : ℕ) → xor_digits count 0 b ≡ b
xor_digits-nothing zero b = refl
xor_digits-nothing (suc count) b = refl

-- More digits to go than the first number has change nothing.
xor_digits_more :
    (count more a b : ℕ) → a ≤ count → xor_digits (count + more) a b ≡ xor_digits count a b
xor_digits_more count more zero b fits =
    xor_digits-nothing (count + more) b ∙ sym (xor_digits-nothing count b)
xor_digits_more zero more (suc a) b fits = absurd (omega arith)
xor_digits_more (suc count) more (suc a) b fits =
    let grow : suc count + more ≡ suc (count + more) = omega arith in
    ap (λ n. xor_digits n (suc a) b) grow
    ∙ ap (λ t. t * 2 + differ (suc a % 2) (b % 2))
        (xor_digits_more count more (suc a / 2) (b / 2) (omega arith))

zero-bit_xor : (b : ℕ) → bit_xor 0 b ≡ b
zero-bit_xor b = bit_xor-bitwise 0 b

differ_lem : (x y : ℕ) → x ≤ 1 → y ≤ 1 → differ x y ≡ (x + y) % 2
differ_lem zero zero p q = refl
differ_lem zero (suc zero) p q = refl
differ_lem (suc zero) zero p q = refl
differ_lem (suc zero) (suc zero) p q = refl
differ_lem (suc (suc x)) y p q = absurd (omega arith)
differ_lem x (suc (suc y)) p q = absurd (omega arith)

-- The lowest digit of an exclusive or, and the digits above it.
pub bit_xor_step : (a b : ℕ) → bit_xor a b ≡ bit_xor (a / 2) (b / 2) * 2 + (a % 2 + b % 2) % 2
bit_xor_step zero b = omega (arith, zero-bit_xor b, zero-bit_xor (b / 2))
bit_xor_step (suc a) b = omega (
  arith,
  bit_xor-bitwise (suc a) b,
  bit_xor-bitwise (suc a / 2) (b / 2),
  differ_lem (suc a % 2) (b % 2) (omega arith) (omega arith),
  ap (λ count. xor_digits count (suc a / 2) (b / 2)) halves,
  xor_digits_more (suc a / 2) (a - suc a / 2) (suc a / 2) (b / 2) (omega arith),
)
  where
    halves : suc a / 2 + (a - suc a / 2) ≡ a
    halves = omega arith

pub bit_xor-half : (a b : ℕ) → bit_xor a b / 2 ≡ bit_xor (a / 2) (b / 2)
bit_xor-half a b = omega (arith, bit_xor_step a b)

pub bit_xor-parity : (a b : ℕ) → bit_xor a b % 2 ≡ (a % 2 + b % 2) % 2
bit_xor-parity a b = omega (arith, bit_xor_step a b)

bit_xor-zero_fuel : (n a : ℕ) → a ≤ n → bit_xor a 0 ≡ a
bit_xor-zero_fuel n zero h = zero-bit_xor 0
bit_xor-zero_fuel zero (suc a) h = absurd (omega arith)
bit_xor-zero_fuel (suc n) (suc a) h =
    omega (arith, bit_xor_step (suc a) 0, bit_xor-zero_fuel n (suc a / 2) (omega arith))

pub bit_xor-zero : (a : ℕ) → bit_xor a 0 ≡ a
bit_xor-zero a = bit_xor-zero_fuel a a (omega arith)

bit_xor_swap_fuel :
    (n a b c : ℕ) → a ≤ n → b ≤ n → c ≤ n → bit_xor (bit_xor a b) c ≡ bit_xor (bit_xor a c) b
bit_xor_swap_fuel zero zero zero zero p q r = refl
bit_xor_swap_fuel zero (suc a) b c p q r = absurd (omega arith)
bit_xor_swap_fuel zero zero (suc b) c p q r = absurd (omega arith)
bit_xor_swap_fuel zero zero zero (suc c) p q r = absurd (omega arith)
bit_xor_swap_fuel (suc n) a b c p q r = omega (
  arith,
  bit_xor_step (bit_xor a b) c,
  bit_xor_step (bit_xor a c) b,
  bit_xor-parity a b,
  bit_xor-parity a c,
  ap (λ x. bit_xor x (c / 2)) (bit_xor-half a b),
  ap (λ x. bit_xor x (b / 2)) (bit_xor-half a c),
  bit_xor_swap_fuel n (a / 2) (b / 2) (c / 2) (omega arith) (omega arith) (omega arith),
)

-- Two numbers may be taken into an exclusive or in either order.
pub bit_xor_swap : (a b c : ℕ) → bit_xor (bit_xor a b) c ≡ bit_xor (bit_xor a c) b
bit_xor_swap a b c = bit_xor_swap_fuel (a + b + c) a b c (omega arith) (omega arith) (omega arith)
