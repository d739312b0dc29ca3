-- ===== src/Manifests/Parameters/Digits.antt =====
-- Numbers as the code prints them (`format!` in src/native.rs and src/run_validation.rs) and as it
-- reads them (`parse` in src/manifests.rs).
use evidence_workbench.Prelude.{
  ℕ, zero, suc, ◌+◌, ◌*◌, ◌/◌, ◌%◌, ◌<◌, ◌≡◌, ◌∙◌, ap, [], ◌∷◌, some, arith, ltb, Bool-cases, inl,
  inr,
}
use evidence_workbench.Text.{Text, is_digit}
use evidence_workbench.Text.Decimal.{digits_onto, decimal}
use evidence_workbench.Manifests.Parameters.{digits_value}

digit_read :
    (d n : ℕ) (rest : Text)
    → d < 10
    → digits_value ((b'0' + d) ∷ rest) n ≡ digits_value rest (n * 10 + d)
unfolding digits_value is_digit
digit_read d n rest h = ground arith

-- With more fuel than the number, the digits in front of a text read as the number.
digits_read :
    (fuel n : ℕ) (rest : Text)
    → n < fuel
    → digits_value (digits_onto fuel n rest) 0 ≡ digits_value rest n
unfolding digits_onto
digits_read zero n rest h = absurd (omega arith)
digits_read (suc fuel) n rest h = elim (Bool-cases (ltb n 10)) [
  | inl small ↦
      rw small (digit_read n 0 rest (ground (arith, small)) ∙ ap (digits_value rest) (omega arith))
  | inr large ↦ rw large (
      digits_read fuel (n / 10) ((b'0' + n % 10) ∷ rest) (ground (arith, large))
      ∙ digit_read (n % 10) (n / 10) rest (omega arith)
      ∙ ap (digits_value rest) (omega arith))
]

-- The fuel of `decimal` is enough: the digits that it prints of a number read as the number.
pub digits_value-decimal : (n : ℕ) → digits_value (decimal n) 0 ≡ some n
unfolding decimal digits_value
digits_value-decimal n = digits_read (suc n) n [] (omega arith)
