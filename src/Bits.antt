-- ===== src/Bits.antt =====
-- `&` with a mask whose binary digits are known, as arithmetic.
use Prim.Native.Nat.{bit_and, bit_and-bitwise, digits}
use benet.Prelude.{
  ℕ, zero, suc, ◌+◌, ◌*◌, ◌/◌, ◌%◌, ◌≤◌, ◌<◌, min, ◌≡◌, refl, ap, ◌∙◌, List, [], ◌∷◌, arith,
}

-- The number with these binary digits, lowest first.
abbrev pub of_bits : List ℕ → ℕ
of_bits [] = 0
of_bits (x ∷ xs) = x + 2 * of_bits xs

abbrev pub AllBits : List ℕ → Type 0
AllBits [] = Unit {0}
AllBits (x ∷ xs) = (x < 2) × AllBits xs

-- The digits of `a` that the mask keeps.
abbrev pub keep_bits : List ℕ → ℕ → ℕ
keep_bits [] a = 0
keep_bits (x ∷ xs) a = keep_bits xs (a / 2) * 2 + min (a % 2) x

keep_bits-zero : (xs : List ℕ) → keep_bits xs 0 ≡ 0
keep_bits-zero [] = refl
keep_bits-zero (x ∷ xs) = omega (arith, keep_bits-zero xs)

digits-keep_bits :
    (n a : ℕ) (xs : List ℕ)
    → a ≤ n
    → AllBits xs
    → digits (λ b. zero) min n a (of_bits xs) ≡ keep_bits xs a
digits-keep_bits zero zero xs h k = omega (arith, keep_bits-zero xs)
digits-keep_bits zero (suc a) xs h k = absurd (omega arith)
digits-keep_bits (suc n) zero xs h k = omega (arith, keep_bits-zero xs)
digits-keep_bits (suc n) (suc a) [] h k =
    omega (arith, digits-keep_bits n (suc a / 2) [] (omega arith) tt)
digits-keep_bits (suc n) (suc a) (x ∷ xs) h k = omega (
  arith,
  k.0,
  ap (digits (λ b. zero) min n (suc a / 2)) rest,
  digits-keep_bits n (suc a / 2) xs (omega arith) k.1,
)
  where
    rest : (x + 2 * of_bits xs) / 2 ≡ of_bits xs
    rest = omega (arith, k.0)

pub bit_and-of_bits : (a : ℕ) (xs : List ℕ) → AllBits xs → bit_and a (of_bits xs) ≡ keep_bits xs a
bit_and-of_bits a xs k = bit_and-bitwise a (of_bits xs) ∙ digits-keep_bits a a xs (omega arith) k
