-- ===== src/Workspace/Identifiers.antt =====
-- src/workspace.rs: the checks of the identifiers under which records and objects are stored.
use evidence_workbench.Prelude.{
  true, ◌≡◌, ◌↔◌, refl, not, ◌&&◌, length, ◌==◌, all, Option, none, some, Checked, ok, ◌>>=◌,
  ensure, ok_or, arith,
}
use evidence_workbench.Text.{
  Text, is_hexdigit, is_upper, strip_prefix, strip_prefix_sound, strip_prefix_append,
}
use evidence_workbench.Validation.Fields.{is_lower_hex}
use evidence_workbench.Validation.Fields.Laws.{IsPrefixedId}

unfoldable pub validate_storage_id : Text → Text → Checked
validate_storage_id value start = do
  suffix ← ok_or (strip_prefix value start) "identifier has the wrong prefix"
  ensure (length suffix == 32 && all (λ byte. is_hexdigit byte && not (is_upper byte)) suffix)
      "invalid storage identifier"

storage_id_found :
    (value start : Text) (found : Option Text)
    → strip_prefix value start ≡ found
    → validate_storage_id value start ≡ ok tt
    → IsPrefixedId start value
unfolding validate_storage_id is_lower_hex
storage_id_found value start none e h = ground arith
storage_id_found value start (some suffix) e h =
    (suffix, strip_prefix_sound value start e, ground arith, ground arith)

storage_id_built :
    (value start suffix : Text)
    → strip_prefix value start ≡ some suffix
    → length suffix ≡ 32
    → is_lower_hex suffix ≡ true
    → validate_storage_id value start ≡ ok tt
unfolding validate_storage_id is_lower_hex
storage_id_built value start suffix e l x = ground arith

pub validate_storage_id_iff :
    (value start : Text) → (validate_storage_id value start ≡ ok tt) ↔ IsPrefixedId start value
validate_storage_id_iff value start = (
  storage_id_found value start (strip_prefix value start) refl,
  λ (suffix, e, l, x).
      storage_id_built value start suffix (rw e (strip_prefix_append start suffix)) l x,
)

unfoldable pub validate_storage_sha256 : Text → Checked
validate_storage_sha256 value =
    ensure (length value == 64 && all (λ byte. is_hexdigit byte && not (is_upper byte)) value)
      "invalid lowercase SHA-256 digest"
