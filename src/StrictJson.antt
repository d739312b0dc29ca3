-- ===== src/StrictJson.antt =====
-- src/strict_json.rs: a visitor that builds a JSON value and refuses a duplicate key. What the
-- deserializer of serde_json hands to the visitor, piece by piece, is a tree (`Raw`); a failure of
-- the deserializer stands in the tree where it is met.
pub mod Laws
use Prim.Native.String.{◌++◌ as concat}
use evidence_workbench.Prelude.{
  ℕ, ◌/◌, ◌%◌, Bool, true, false, not, ◌||◌, Option, none, some, List, [], ◌∷◌, ◌==◌, String,
  Outcome, ok, err, ◌>>=◌, ◌>>◌, ensure, ok_or,
}
use evidence_workbench.Text.{Text, lit, same, starts_with}
use evidence_workbench.Collections.{contains, insert}
use evidence_workbench.Json.{
  Number, negative, unsigned, double, Json, null, bool, number, string, array, object, Items, nil,
  cons, Members, empty, put_member,
}

mutual
  pub data Raw : Type 0 where
    raw_bool : Bool → Raw
    raw_i64_below_0 : ℕ → Raw
    raw_u64 : ℕ → Raw
    raw_f64 : ℕ → Raw
    raw_string : Text → Raw
    raw_none : Raw
    raw_seq : RawItems → Raw
    raw_map : RawFields → Raw
    raw_fault : String → Raw

  pub data RawItems : Type 0 where
    seq_end : RawItems
    seq_fault : String → RawItems
    seq_next : Raw → RawItems → RawItems

  pub data RawFields : Type 0 where
    map_end : RawFields
    map_fault : String → RawFields
    map_next : Text → Raw → RawFields → RawFields

-- `Number::from_f64` refuses infinities and NaN: the exponent of eleven ones.
unfoldable pub from_f64 : ℕ → Option Number
from_f64 bits = elim (bits / 4503599627370496 % 2048 == 2047) [
  | true ↦ none
  | false ↦ some (double bits)
]

unfoldable mutual
  pub visit : Raw → Outcome Json
  visit (raw_bool b) = ok (bool b)
  visit (raw_i64_below_0 n) = ok (number (negative n))
  visit (raw_u64 n) = ok (number (unsigned n))
  visit (raw_f64 bits) = ok_or (from_f64 bits) "non-finite JSON number" >>= λ n. ok (number n)
  visit (raw_string s) = ok (string s)
  visit raw_none = ok null
  visit (raw_seq items) = visit_seq items >>= λ values. ok (array values)
  visit (raw_map fields) = visit_map fields [] empty >>= λ values. ok (object values)
  visit (raw_fault e) = err e

  pub visit_seq : RawItems → Outcome Items
  visit_seq seq_end = ok nil
  visit_seq (seq_fault e) = err e
  visit_seq (seq_next raw rest) = visit raw >>= λ v. visit_seq rest >>= λ values. ok (cons v values)

  -- `keys` and `values` are the variables of the source's loop.
  pub visit_map : RawFields → List Text → Members → Outcome Members
  visit_map map_end keys values = ok values
  visit_map (map_fault e) keys values = err e
  visit_map (map_next key raw rest) keys values =
      ensure (not (contains key keys)) "duplicate JSON object key"
      >> (visit raw >>= λ v. visit_map rest (insert key keys) (put_member key v values))

-- serde_json's deserializer: the tree it reads from the bytes, and what `end()` says after it.
pub record Deserializer : Type 0 where
  pub read : List ℕ → Raw
  pub finish : List ℕ → Outcome (Unit {0})

module _ (json : Deserializer) where
  unfoldable pub parse_strict : List ℕ → Outcome Json
  parse_strict bytes = do value ← visit (json.read bytes); json.finish bytes; ok value

abbrev is_empty : Text → Bool
is_empty [] = true
is_empty (_ ∷ _) = false

-- `Value::pointer` is serde_json's: `resolve` stands for it.
module _ (resolve : Json → Text → Option Json) where
  unfoldable pub pointer : Json → Text → Outcome Json
  pointer value selector = do
    ensure (starts_with selector (lit "/") || is_empty selector)
        "JSON pointer must be empty or begin with '/'"
    ok_or (resolve value selector) "JSON pointer does not resolve"
