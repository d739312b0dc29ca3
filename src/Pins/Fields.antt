-- ===== src/Pins/Fields.antt =====
-- The checks of single fields that src/upstream_pins.rs and src/candidate_pins.rs each have.
use Prim.Native.String.{◌++◌ as concat}
use evidence_workbench.Prelude.{
  ℕ, Bool, true, false, not, ◌&&◌, ◌||◌, Option, none, some, List, [], ◌∷◌, ltb, ◌==◌, all, any,
  length, String, Outcome, Checked, ok, ◌>>=◌, ◌>>◌, ensure, ok_or, if◌then◌else◌,
}
use evidence_workbench.Text.{Text, lit, same, is_alphanumeric, strip_prefix, starts_with, split}
use evidence_workbench.Manifests.Parameters.{digits_value}
use evidence_workbench.Manifests.Registry.{to_ascii_lowercase}

abbrev pub is_nil {ℓ} : {A : Type ℓ} → List A → Bool
is_nil [] = true
is_nil (_ ∷ _) = false

-- A part that makes a repository URL inexact. The parts `.` and `..` do not.
unfoldable pub bad_url_part : Text → Bool
bad_url_part part =
    is_nil part
    || not
        (all (λ byte. is_alphanumeric byte || (byte == b'-' || byte == b'_' || byte == b'.')) part)

-- What stands after the host is returned.
unfoldable pub validate_repository_url : Text → Outcome Text
unfolding bad_url_part
validate_repository_url value = do
  repository ←
      ok_or (strip_prefix value (lit "https://github.com/"))
        "upstream repository must use GitHub HTTPS"
  ensure (length (split b'/' repository) == 2 && not (any bad_url_part (split b'/' repository)))
      "upstream repository URL must be an exact GitHub HTTPS URL"
  ok repository

-- The digits of a number, without a sign.
abbrev pub digits_below : ℕ → Text → Option ℕ
digits_below limit [] = none
digits_below limit (digit ∷ rest) = elim (digits_value (digit ∷ rest) 0) [
  | none ↦ none
  | some n ↦ if ltb n limit then some n else none
]

-- `value.parse::<u64>()`, which takes a `+` before the digits.
unfoldable pub parse_u64 : Text → Option ℕ
parse_u64 [] = none
parse_u64 (first ∷ rest) =
    if first == b'+'
    then digits_below 18446744073709551616 rest
    else digits_below 18446744073709551616 (first ∷ rest)

unfoldable pub validate_decimal_id : Text → String → Checked
unfolding parse_u64
validate_decimal_id value label = do
  parsed ← ok_or (parse_u64 value) (concat label " id is not an unsigned decimal integer")
  ensure (not (parsed == 0 || starts_with value (lit "0"))) (concat label " id is not canonical")

-- `eq_ignore_ascii_case`.
unfoldable pub eq_ignore_ascii_case : Text → Text → Bool
unfolding to_ascii_lowercase
eq_ignore_ascii_case a b = same (to_ascii_lowercase a) (to_ascii_lowercase b)
