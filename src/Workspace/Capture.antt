-- ===== src/Workspace/Capture.antt =====
-- src/workspace.rs: what the caller says of an artifact, checked before anything is stored.
use evidence_workbench.Prelude.{[], not, ◌||◌, List, Checked, ◌>>◌, ensure}
use evidence_workbench.Text.{Text, lit, same}
use evidence_workbench.Text.Trim.{trim}
use evidence_workbench.RunValidation.Descriptors.{is_nil, validate_roles}

-- The loop over the roles does what that of `validate_artifact_descriptor` does.
unfoldable pub validate_artifact_capture_contract : List Text → Text → Text → Text → Checked
validate_artifact_capture_contract roles media_type origin capture_mode = do
  ensure (not (is_nil roles)) "artifact must have at least one role"
  validate_roles roles []
  ensure (not (is_nil media_type || not (same (trim media_type) media_type)))
      "artifact media type must be a non-empty trimmed string"
  ensure
      (same origin (lit "native_file")
        || same origin (lit "process_stdout")
        || same origin (lit "process_stderr"))
      "artifact origin is outside the v1 contract"
  ensure
      (same capture_mode (lit "byte_for_byte_copy") || same capture_mode (lit "raw_stream_capture"))
      "artifact capture mode is outside the v1 contract"
