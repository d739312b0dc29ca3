-- ===== src/Native/Capabilities.antt =====
-- src/native.rs: `valid_capability` and `validate_capability_approval`, the check that a caller
-- approves exactly the capabilities which an invocation requires.
pub mod Accepts
use evidence_workbench.Prelude.{
  ◌≡◌, ◌↔◌, ℕ, Bool, true, false, not, ◌&&◌, ◌||◌, List, [], ◌∷◌, leb, ◌==◌, all, length, Outcome,
  Checked, ok, ◌>>=◌, ◌>>◌, ensure, arith,
}
use evidence_workbench.Text.{Text, is_lower, is_digit}
use evidence_workbench.Collections.{contains, insert, collect_set, difference, Distinct, SameKeys}
use evidence_workbench.Contracts.Run.{Invocation}

abbrev pub is_empty : List Text → Bool
is_empty [] = true
is_empty (_ ∷ _) = false

abbrev no_bytes : Text → Bool
no_bytes [] = true
no_bytes (_ ∷ _) = false

unfoldable pub valid_capability : Text → Bool
valid_capability value =
    not (no_bytes value)
    && leb (length value) 64
    && all (λ byte. is_lower byte || is_digit byte || byte == b'_') value

-- The loop over the approvals, with the set of those that were read.
unfoldable pub approve : List Text → List Text → List Text → Outcome (List Text)
approve required [] approved = ok approved
approve required (capability ∷ rest) approved = do
  ensure (valid_capability capability && contains capability required)
      "unknown or unnecessary capability approval"
  ensure (not (contains capability approved)) "duplicate capability approval"
  approve required rest (insert capability approved)

unfoldable pub validate_capability_approval : Invocation → List Text → Checked
validate_capability_approval invocation allowed = do
  approved ← approve (collect_set invocation.required_capabilities) allowed []
  ensure (is_empty (difference (collect_set invocation.required_capabilities) approved))
      "missing explicit capability approval"
