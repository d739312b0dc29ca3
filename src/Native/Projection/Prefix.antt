-- ===== src/Native/Projection/Prefix.antt =====
-- `extract_text_prefix` of src/native.rs: where the value and the locator come from, on the
-- first line that has the prefix.
use evidence_workbench.Prelude.{
  inr, inl, Option-cases, ℕ, ◌+◌, ◌-◌, ◌≡◌, refl, sym, ◌∙◌, List, [], ◌∷◌, ◌++◌, none, some, length,
  take, drop, take_append, drop_append, length-append, append_assoc, ap, ok, arith, >>=-eq-ok,
  subst, ok_or,
}
use evidence_workbench.Text.{Text, strip_prefix, strip_prefix_sound}
use evidence_workbench.Text.Trim.{trim, trim_start, trim_end_newlines}
use evidence_workbench.Text.Trim.Runs.{
  IsBlank, IsNewlines, IsTight, trim_drops, trim_end_newlines_drops,
}
use evidence_workbench.Text.Utf8.{from_utf8}
use evidence_workbench.Text.Lines.{split_inclusive, joined, joined-split_inclusive}
use evidence_workbench.Json.{Json, string}
use evidence_workbench.Contracts.Run.{Locator}
use evidence_workbench.Validation.Topology.Spec.{All}
use evidence_workbench.Native.Projection.{byte_range, found_prefix, scan_lines, extract_text_prefix}

-- The body of the line does not start with the prefix.
abbrev pub Lacks : Text → Text → Type 0
Lacks prefix line = strip_prefix (trim_end_newlines line) prefix ≡ none

-- Where the value stands: on the first line whose body has the prefix. The body is the line without
-- the line end; it is the prefix, white space, the value and white space, and the value does not
-- begin or end with white space.
pub record Located (bytes prefix : Text) (result : Json × Locator) : Type 0 where
  pub lines : List Text
  pub line : Text
  pub later : List Text
  pub splits : split_inclusive b'\n' bytes ≡ lines ++ line ∷ later
  pub earlier : All (Lacks prefix) lines
  pub gap : Text
  pub value : Text
  pub back : Text
  pub ending : Text
  pub body : trim_end_newlines line ≡ prefix ++ gap ++ value ++ back
  pub ends : line ≡ trim_end_newlines line ++ ending
  pub gap_blank : IsBlank gap
  pub value_tight : IsTight value
  pub back_blank : IsBlank back
  pub ending_newlines : IsNewlines ending
  pub is_value : result.0 ≡ string value
  pub is_range :
      result.1
      ≡ byte_range
          (length (joined lines ++ prefix ++ gap))
          (length (joined lines ++ prefix ++ gap ++ value))

joined-append : (a b : List Text) → joined (a ++ b) ≡ joined a ++ joined b
joined-append [] b = refl
joined-append (x ∷ a) b =
    ap (λ r. x ++ r) (joined-append a b) ∙ sym (append_assoc x (joined a) (joined b))

-- The value of a line and its place in the line.
record InLine (offset : ℕ) (line prefix value : Text) : Type 0 where
  gap : Text
  back : Text
  ending : Text
  body : trim_end_newlines line ≡ prefix ++ gap ++ trim value ++ back
  ends : line ≡ trim_end_newlines line ++ ending
  gap_blank : IsBlank gap
  value_tight : IsTight (trim value)
  back_blank : IsBlank back
  ending_newlines : IsNewlines ending
  is_range :
      (found_prefix offset (trim_end_newlines line) value).1
      ≡ byte_range
          (offset + length prefix + length gap)
          (offset + length prefix + length gap + length (trim value))
  is_value : (found_prefix offset (trim_end_newlines line) value).0 ≡ string (trim value)

regroup_body : (p a b c : Text) → p ++ (a ++ b ++ c) ≡ p ++ a ++ b ++ c
regroup_body p a b c = simp append_assoc

in_line :
    (offset : ℕ) (line prefix value : Text)
    → strip_prefix (trim_end_newlines line) prefix ≡ some value
    → InLine offset line prefix value
unfolding found_prefix
in_line offset line prefix value h =
    let (tail, e, n) = trim_end_newlines_drops line in
    let body = strip_prefix_sound (trim_end_newlines line) prefix h in
    let (lead, trail, s, t, b, q, k) = trim_drops value in
    record {
      gap = lead;
      back = trail;
      ending = tail;
      body = body ∙ ap (λ r. prefix ++ r) t ∙ regroup_body prefix lead (trim value) trail;
      ends = e;
      gap_blank = b;
      value_tight = k;
      back_blank = q;
      ending_newlines = n;
      is_range =
          λ i. byte_range (starts lead body s i) (starts lead body s i + length (trim value));
      is_value = refl;
    }
  where
    starts :
        (lead : Text)
        → trim_end_newlines line ≡ prefix ++ value
        → value ≡ lead ++ trim_start value
        → offset
            + (length (trim_end_newlines line) - length value)
            + (length value - length (trim_start value))
          ≡ offset + length prefix + length lead
    starts lead body s = omega (
      arith,
      ap length body,
      length-append prefix value,
      ap length s,
      length-append lead (trim_start value),
    )

All-concat :
    (prefix line : Text) (lines : List Text)
    → All (Lacks prefix) lines
    → Lacks prefix line
    → All (Lacks prefix) (lines ++ line ∷ [])
All-concat prefix line [] h l = (l, tt)
All-concat prefix line (x ∷ lines) h l = (h.0, All-concat prefix line lines h.1 l)

length-joined_concat :
    (lines : List Text) (line : Text)
    → length (joined (lines ++ line ∷ [])) ≡ length (joined lines) + length line
length-joined_concat lines line =
    ap length (joined-append lines (line ∷ []))
    ∙ omega (arith, length-append (joined lines) (line ++ []), length-append line [])

bytes_at :
    (bytes : Text) (lines later : List Text) (line : Text)
    → split_inclusive b'\n' bytes ≡ lines ++ line ∷ later
    → bytes ≡ joined lines ++ (line ++ joined later)
bytes_at bytes lines later line e =
    sym (joined-split_inclusive b'\n' bytes) ∙ ap joined e ∙ joined-append lines (line ∷ later)

lengths :
    (front prefix gap value : Text)
    → (length front + length prefix + length gap ≡ length (front ++ prefix ++ gap))
      × (length front + length prefix + length gap + length value
          ≡ length (front ++ prefix ++ gap ++ value))
lengths front prefix gap value = omega (
  arith,
  length-append front prefix,
  length-append (front ++ prefix) gap,
  length-append (front ++ prefix ++ gap) value,
)

found_here :
    (bytes prefix : Text) (lines later : List Text) (line value : Text)
    → split_inclusive b'\n' bytes ≡ lines ++ line ∷ later
    → All (Lacks prefix) lines
    → strip_prefix (trim_end_newlines line) prefix ≡ some value
    → Located bytes prefix (found_prefix (length (joined lines)) (trim_end_newlines line) value)
found_here bytes prefix lines later line value e none_before h =
    let l = in_line (length (joined lines)) line prefix value h in
    let (s, t) = lengths (joined lines) prefix l.gap (trim value) in
    record {
      lines = lines;
      line = line;
      later = later;
      splits = e;
      earlier = none_before;
      gap = l.gap;
      value = trim value;
      back = l.back;
      ending = l.ending;
      body = l.body;
      ends = l.ends;
      gap_blank = l.gap_blank;
      value_tight = l.value_tight;
      back_blank = l.back_blank;
      ending_newlines = l.ending_newlines;
      is_value = l.is_value;
      is_range = l.is_range ∙ (λ i. byte_range (s i) (t i));
    }

scan-Located :
    (bytes prefix : Text) (lines rest : List Text) (result : Json × Locator)
    → split_inclusive b'\n' bytes ≡ lines ++ rest
    → All (Lacks prefix) lines
    → scan_lines rest (length (joined lines)) prefix ≡ ok result
    → Located bytes prefix result
unfolding scan_lines
scan-Located bytes prefix lines [] result e none_before h = cc
scan-Located bytes prefix lines (line ∷ rest) result e none_before h =
    elim (Option-cases (strip_prefix (trim_end_newlines line) prefix)) [
      | inl lacks ↦
          scan-Located bytes prefix (lines ++ line ∷ []) rest result
            (e ∙ sym (append_assoc lines (line ∷ []) rest))
            (All-concat prefix line lines none_before lacks)
            (rw (length-joined_concat lines line) (ground (arith, h, lacks)))
      | inr (value, here) ↦
          subst (Located bytes prefix) (ground (arith, h, here))
            (found_here bytes prefix lines rest line value e none_before here)
    ]

utf8_same :
    (bytes text : Text)
    → ok_or (from_utf8 bytes) "native text output is not UTF-8" ≡ ok text
    → bytes ≡ text
unfolding from_utf8
utf8_same bytes text h = ground arith

Located-in :
    (bytes text prefix : Text) (result : Json × Locator)
    → text ≡ bytes
    → scan_lines (split_inclusive b'\n' text) 0 prefix ≡ ok result
    → Located bytes prefix result
Located-in bytes text prefix result e h =
    subst (λ t. Located t prefix result) e
      (scan-Located text prefix [] (split_inclusive b'\n' text) result refl tt h)

-- What `extract_text_prefix` of src/native.rs returns is found on the first line whose body, the line
-- without the line end, has the prefix: the body is the prefix, white space, the value and white
-- space, the value does not begin or end with white space, and the two numbers of the locator are the
-- places in the whole output, in bytes, at which the value starts and ends.
pub extract_text_prefix-Located :
    (bytes prefix : Text) (result : Json × Locator)
    → extract_text_prefix bytes prefix ≡ ok result
    → Located bytes prefix result
unfolding extract_text_prefix
extract_text_prefix-Located bytes prefix result h =
    let (text, a, b) = >>=-eq-ok (ok_or (from_utf8 bytes) _) _ h in
    Located-in bytes text prefix result (sym (utf8_same bytes text a)) b

regroup_text :
    (front p a b c d later : Text)
    → front ++ ((p ++ a ++ b ++ c ++ d) ++ later) ≡ front ++ p ++ a ++ b ++ (c ++ d ++ later)
regroup_text front p a b c d later = simp append_assoc

-- The output around the value.
placed :
    (bytes prefix : Text) (result : Json × Locator)
    → (l : Located bytes prefix result)
    → bytes ≡ joined l.lines ++ prefix ++ l.gap ++ l.value ++ (l.back ++ l.ending ++ joined l.later)
placed bytes prefix result l =
    bytes_at bytes l.lines l.later l.line l.splits
    ∙ ap (λ r. joined l.lines ++ (r ++ joined l.later)) (l.ends ∙ ap (λ r. r ++ l.ending) l.body)
    ∙ regroup_text (joined l.lines) prefix l.gap l.value l.back l.ending (joined l.later)

slice_of :
    (front value back : Text)
    → take (length (front ++ value) - length front) (drop (length front) (front ++ value ++ back))
      ≡ value
slice_of front value back =
    ap (λ n. take n (drop (length front) (front ++ value ++ back)))
      (omega (arith, length-append front value))
    ∙ ap (take (length value)) (
        ap (drop (length front)) (append_assoc front value back)
        ∙ drop_append front (value ++ back))
    ∙ take_append value back

-- Cutting the output of a tool at the two numbers of the locator that `extract_text_prefix` of
-- src/native.rs returns gives back exactly the reported value.
pub extract_text_prefix_slice :
    (bytes prefix : Text) (result : Json × Locator)
    → extract_text_prefix bytes prefix ≡ ok result
    → (start end' : ℕ) × (result.1 ≡ byte_range start end')
      × (result.0 ≡ string (take (end' - start) (drop start bytes)))
extract_text_prefix_slice bytes prefix result h =
    let l = extract_text_prefix-Located bytes prefix result h in
    let front = joined l.lines ++ prefix ++ l.gap in
    (
      length front,
      length (front ++ l.value),
      l.is_range,
      l.is_value
          ∙ ap string (
              sym (
                ap (λ b. take (length (front ++ l.value) - length front) (drop (length front) b))
                  (placed bytes prefix result l)
                ∙ slice_of front l.value (l.back ++ l.ending ++ joined l.later))),
    )
