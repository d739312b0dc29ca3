-- ===== src/Manifests/Parameters.antt =====
-- src/manifests.rs: `validate_parameter` and `validate_parameters`, which resolve the parameters
-- that a caller supplies as NAME=VALUE against the manifest; and `validate_parameters` of
-- src/run_validation.rs, which resolves recorded parameters once more and compares.
pub mod Resolves
pub mod Passes
pub mod Again
pub mod Digits
use evidence_workbench.Prelude.{
  ℕ, zero, suc, ◌+◌, ◌-◌, ◌*◌, Bool, true, false, not, ◌&&◌, ◌||◌, List, [], ◌∷◌, ◌++◌, map, Option,
  none, some, leb, ltb, ◌==◌, all, any, length, Outcome, Checked, ok, err, ◌>>=◌, ◌>>◌, ensure,
  ok_or, if◌then◌else◌,
}
use evidence_workbench.Text.{
  Text, lit, same, is_digit, is_alphanumeric, is_hexdigit, is_upper, split_once,
}
use evidence_workbench.Collections.{get, put, put_all, contains_key}
use evidence_workbench.Manifests.{Integer, pos, negsuc, ParameterContract, ToolManifest}

-- The digits read as a number, onto what was read before.
unfoldable pub digits_value : Text → ℕ → Option ℕ
digits_value [] n = some n
digits_value (byte ∷ rest) n =
    let more = digits_value rest (n * 10 + (byte - b'0')) in if is_digit byte then more else none

abbrev i64_max : ℕ
i64_max = 9223372036854775807

-- `-n`, for the numbers that an `i64` has.
abbrev negated : ℕ → Option Integer
negated zero = some (pos zero)
negated (suc n) = if leb n i64_max then some (negsuc n) else none

abbrev in_range : ℕ → Option Integer
in_range n = if leb n i64_max then some (pos n) else none

abbrev and_then : Option ℕ → (ℕ → Option Integer) → Option Integer
and_then none f = none
and_then (some n) f = f n

abbrev unsigned : Text → Option ℕ
unsigned [] = none
unsigned (byte ∷ rest) = digits_value (byte ∷ rest) 0

-- `value.parse::<i64>()`.
unfoldable pub parse_i64 : Text → Option Integer
unfolding digits_value
parse_i64 [] = none
parse_i64 (byte ∷ rest) =
    if byte == b'-'
    then and_then (unsigned rest) negated
    else if byte == b'+'
    then and_then (unsigned rest) in_range
    else and_then (unsigned (byte ∷ rest)) in_range

-- `a < b` on `i64`.
unfoldable pub below : Integer → Integer → Bool
below (pos a) (pos b) = ltb a b
below (pos a) (negsuc b) = false
below (negsuc a) (pos b) = true
below (negsuc a) (negsuc b) = ltb b a

abbrev is_some_and : Option Integer → (Integer → Bool) → Bool
is_some_and none test = false
is_some_and (some i) test = test i

abbrev is_empty : Text → Bool
is_empty [] = true
is_empty (_ ∷ _) = false

unfoldable pub validate_parameter : ParameterContract → Text → Checked
validate_parameter contract value =
    if same contract.kind (lit "git_revision")
    then ensure
        ((length value == 40 || length value == 64)
          && all (λ byte. is_hexdigit byte && not (is_upper byte)) value)
        "must be a lowercase 40- or 64-hex object id"
    else if same contract.kind (lit "enum")
    then ensure (any (λ allowed. same allowed value) contract.allowed_values)
        "has an unsupported value"
    else if same contract.kind (lit "integer")
    then (do
      parsed ← ok_or (parse_i64 value) "parameter is not an integer"
      ensure
          (not (
            is_some_and contract.minimum (λ minimum. below parsed minimum)
            || is_some_and contract.maximum (λ maximum. below maximum parsed)))
          "is outside its permitted range")
    else if same contract.kind (lit "identifier")
    then ensure
        (not (is_empty value)
          && leb (length value) 64
          && all (λ byte. is_alphanumeric byte || (byte == b'-' || byte == b'_' || byte == b'.'))
              value)
        "must be a short ASCII identifier"
    else err "unsupported parameter kind"

abbrev pub by_name : ParameterContract → Text × ParameterContract
by_name contract = (contract.name, contract)

-- `contracts`.
unfoldable pub contracts_by_name : ToolManifest → List (Text × ParameterContract)
contracts_by_name manifest = put_all [] (map by_name manifest.invocation_contract.parameters)

-- The loop over the supplied items.
unfoldable pub supply :
    List (Text × ParameterContract) → List Text → List (Text × Text) → Outcome (List (Text × Text))
supply contracts [] values = ok values
supply contracts (item ∷ rest) values = do
  (name, value) ← ok_or (split_once b'=' item) "parameter must be NAME=VALUE"
  contract ← ok_or (get name contracts) "unknown parameter"
  ensure (not (contains_key name values)) "duplicate parameter"
  validate_parameter contract value
  supply contracts rest (put name value values)

unfoldable pub fill_one : ParameterContract → List (Text × Text) → Outcome (List (Text × Text))
fill_one contract values =
    if contains_key contract.name values then ok values else elim contract.default [
      | some default ↦ ok (put contract.name default values)
      | none ↦ if contract.required then err "missing required parameter" else ok values
    ]

-- The loop over `contracts.values()`.
unfoldable pub fill_defaults :
    List (Text × ParameterContract) → List (Text × Text) → Outcome (List (Text × Text))
fill_defaults [] values = ok values
fill_defaults ((name, contract) ∷ rest) values = do
  filled ← fill_one contract values
  fill_defaults rest filled

unfoldable pub validate_parameters : ToolManifest → List Text → Outcome (List (Text × Text))
validate_parameters manifest supplied = do
  values ← supply (contracts_by_name manifest) supplied []
  fill_defaults (contracts_by_name manifest) values

-- `format!("{name}={value}")`.
abbrev pub assignment : Text × Text → Text
assignment (name, value) = name ++ b'=' ∷ value

unfoldable pub same_values : List (Text × Text) → List (Text × Text) → Bool
same_values [] [] = true
same_values ((j, v) ∷ m) ((k, w) ∷ n) = same j k && same v w && same_values m n
same_values _ _ = false

-- `validate_parameters` of src/run_validation.rs.
unfoldable pub validate_recorded_parameters : ToolManifest → List (Text × Text) → Checked
validate_recorded_parameters manifest parameters = do
  normalized ← validate_parameters manifest (map assignment parameters)
  ensure (same_values normalized parameters)
      "parameters do not match the trusted manifest defaults and constraints"
