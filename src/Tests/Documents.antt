-- ===== src/Tests/Documents.antt =====
-- Runs of the visitor of src/strict_json.rs.
use evidence_workbench.Text.Order.{before}
use evidence_workbench.StrictJson.{
  seq_end, raw_bool, seq_next, map_end, raw_seq, raw_u64, map_next, RawFields, raw_map, Raw,
  from_f64, visit, visit_seq, visit_map, parse_strict, pointer,
}
use evidence_workbench.Collections.{
  contains, place, insert, collect_set, difference, within_keys, equal_sets, get, put, put_all,
  keys, contains_key,
}
use evidence_workbench.Prelude.{none, all, any, ◌≡◌, refl, true, [], ok, err, is_ok_with}
use evidence_workbench.Text.{
  same, is_lower, is_upper, is_digit, is_alphanumeric, is_hexdigit, strip_prefix, starts_with,
  ends_with, contains_byte, split, split_once, lit,
}
use evidence_workbench.StrictJson.Laws.{
  IsStrict, HoldsReading, raw_value, visit_iff, visit_map_holds,
}
use evidence_workbench.Json.{
  array, cons, nil, bool, number, unsigned, object, cons, array, member, empty, same_number,
  same_json, find_member, put_member, member_keys, Members,
}

-- {"b": 1, "a": [true]}
abbrev two_fields : RawFields
two_fields =
    map_next (lit "b") (raw_u64 1)
      (map_next (lit "a") (raw_seq (seq_next (raw_bool true) seq_end)) map_end)

-- {"c": {"a": 1, "a": 2}}
abbrev twice_inside : Raw
twice_inside = raw_map (
    map_next (lit "c")
      (raw_map (map_next (lit "a") (raw_u64 1) (map_next (lit "a") (raw_u64 2) map_end))) map_end)

two_fields-run :
    visit_map two_fields [] empty
    ≡ ok (
        member
          (lit "a")
          (array (cons (bool true) nil))
          (member (lit "b") (number (unsigned 1)) empty))
unfolding lit same is_lower is_upper is_digit is_alphanumeric is_hexdigit strip_prefix starts_with
    ends_with contains_byte split split_once before all any contains place insert collect_set
    difference within_keys equal_sets get put put_all keys contains_key from_f64 visit visit_seq
    visit_map parse_strict pointer same_number same_json find_member put_member member_keys
two_fields-run = refl

twice_inside-run : visit twice_inside ≡ err "duplicate JSON object key"
unfolding lit same is_lower is_upper is_digit is_alphanumeric is_hexdigit strip_prefix starts_with
    ends_with contains_byte split split_once before all any contains place insert collect_set
    difference within_keys equal_sets get put put_all keys contains_key from_f64 visit visit_seq
    visit_map parse_strict pointer same_number same_json find_member put_member member_keys
twice_inside-run = refl

accepted : is_ok_with (visit (raw_map two_fields)) (λ _. true) ≡ true
unfolding lit same is_lower is_upper is_digit is_alphanumeric is_hexdigit strip_prefix starts_with
    ends_with contains_byte split split_once before all any contains place insert collect_set
    difference within_keys equal_sets get put put_all keys contains_key from_f64 visit visit_seq
    visit_map parse_strict pointer same_number same_json find_member put_member member_keys
accepted = refl

visit_iff_example : IsStrict (raw_map two_fields)
visit_iff_example = (visit_iff (raw_map two_fields)).0 accepted

abbrev two_members : Members
two_members =
    member (lit "a") (array (cons (bool true) nil)) (member (lit "b") (number (unsigned 1)) empty)

object_run : visit (raw_map two_fields) ≡ ok (object two_members)
unfolding lit same is_lower is_upper is_digit is_alphanumeric is_hexdigit strip_prefix starts_with
    ends_with contains_byte split split_once before all any contains place insert collect_set
    difference within_keys equal_sets get put put_all keys contains_key from_f64 visit visit_seq
    visit_map parse_strict pointer same_number same_json find_member put_member member_keys
object_run = refl

visit_map_holds_example :
    HoldsReading (raw_value (lit "a") two_fields) none (find_member (lit "a") two_members)
visit_map_holds_example = visit_map_holds two_fields two_members object_run (lit "a")
