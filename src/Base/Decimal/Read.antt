-- ===== src/Base/Decimal/Read.antt =====
-- `std::to_string` of an unsigned number can be read back, so two numbers have two texts.
use Prim.Native.Nat.{ℕ, zero, suc, ◌+◌, ◌-◌, ◌*◌, ◌/◌, ◌%◌, ◌<◌}
use Prim.Native.Char.{Char, code}
use Prim.Native.String.{String}
use mathlib.Core.Path.{◌≡◌, refl, sym, ap, ◌∙◌}
use mathlib.Core.Logic.{inl, inr}
use native.Mathlib.Omega.{arith}
use aqua_regulator_server.Base.Tests.{ltb, ltb→lt, Bool-cases}
use aqua_regulator_server.Base.Decimal.{digit, digits, to_string}

digit_value : Char → ℕ
digit_value c = code c - 48

digit_value-digit : (d : ℕ) → d < 10 → digit_value (digit d) ≡ d
unfolding digit_value digit
digit_value-digit zero h = refl
digit_value-digit (suc zero) h = refl
digit_value-digit (suc (suc zero)) h = refl
digit_value-digit (suc (suc (suc zero))) h = refl
digit_value-digit (suc (suc (suc (suc zero)))) h = refl
digit_value-digit (suc (suc (suc (suc (suc zero))))) h = refl
digit_value-digit (suc (suc (suc (suc (suc (suc zero)))))) h = refl
digit_value-digit (suc (suc (suc (suc (suc (suc (suc zero))))))) h = refl
digit_value-digit (suc (suc (suc (suc (suc (suc (suc (suc zero)))))))) h = refl
digit_value-digit (suc (suc (suc (suc (suc (suc (suc (suc (suc zero))))))))) h = refl
digit_value-digit (suc (suc (suc (suc (suc (suc (suc (suc (suc (suc n)))))))))) h =
    absurd (omega arith)

-- The number of a text, behind digits that stand for `m`.
read : ℕ → String → ℕ
read m String.[] = m
read m (String.◌∷◌ c s) = read (10 * m + digit_value c) s

read-digits : (fuel n : ℕ) (acc : String) → n < fuel → read 0 (digits fuel n acc) ≡ read n acc
unfolding read digits
read-digits zero n acc h = absurd (omega arith)
read-digits (suc fuel) n acc h = elim (Bool-cases (ltb n 10)) [
  | inl e ↦
      let one : 10 * 0 + digit_value (digit n) ≡ n =
        omega (arith, digit_value-digit n (ltb→lt n 10 e)) in
      rw (e, digits) (ap (λ (m : ℕ). read m acc) one)
  | inr e ↦
      let rest = read-digits fuel (n / 10) (String.◌∷◌ (digit (n % 10)) acc) (ground arith) in
      let last : 10 * (n / 10) + digit_value (digit (n % 10)) ≡ n =
        omega (arith, digit_value-digit (n % 10) (omega arith)) in
      rw (e, digits) (rest ∙ ap (λ (m : ℕ). read m acc) last)
]

read-to_string : (n : ℕ) → read 0 (to_string n) ≡ n
unfolding to_string read
read-to_string n = read-digits (suc n) n "" (omega arith)

pub to_string_injective : (a b : ℕ) → to_string a ≡ to_string b → a ≡ b
to_string_injective a b h = sym (read-to_string a) ∙ ap (read 0) h ∙ read-to_string b
