-- ===== src/Text/Decimal.antt =====
-- `format!("{n}")` for an unsigned number.
use evidence_workbench.Prelude.{ℕ, zero, suc, ◌+◌, ◌/◌, ◌%◌, [], ◌∷◌, ltb, if◌then◌else◌}
use evidence_workbench.Text.{Text}

-- The digits in front of `rest`, with one unit of fuel for each.
unfoldable pub digits_onto : ℕ → ℕ → Text → Text
digits_onto zero n rest = rest
digits_onto (suc fuel) n rest =
    let more = digits_onto fuel (n / 10) ((b'0' + n % 10) ∷ rest) in
    if ltb n 10 then (b'0' + n) ∷ rest else more

unfoldable pub decimal : ℕ → Text
unfolding digits_onto
decimal n = digits_onto (suc n) n []
