-- ===== src/StrictJson/Laws.antt =====
-- src/strict_json.rs: which texts the visitor and `parse_strict` accept, and what the members of an
-- accepted object are.
use evidence_workbench.Prelude.{
  ℕ, ◌≡◌, refl, ◌↔◌, true, false, not, Option, none, some, List, [], ◌∷◌, arith, if◌then◌else◌, ok,
  is_ok_with, is_ok_with_iff, ◌>>=◌, >>=-eq-ok, >>-eq-ok, ensure-eq-ok, ensure, Bool-cases, inl,
  inr, ok_or,
}
use evidence_workbench.Text.{Text, same, same_iff}
use evidence_workbench.Collections.{contains, insert, Distinct}
use evidence_workbench.Collections.Laws.{contains-insert}
use evidence_workbench.Json.{
  unsigned, negative, Number, Json, null, bool, number, string, array, object, Items, nil, cons,
  Members, empty, find_member, put_member,
}
use evidence_workbench.Json.Laws.{find_member-put}
use evidence_workbench.StrictJson.{
  Raw, raw_bool, raw_i64_below_0, raw_u64, raw_f64, raw_string, raw_none, raw_seq, raw_map,
  raw_fault, RawItems, seq_end, seq_fault, seq_next, RawFields, map_end, map_fault, map_next,
  from_f64, visit, visit_seq, visit_map, Deserializer, parse_strict,
}

abbrev pub raw_keys : RawFields → List Text
raw_keys map_end = []
raw_keys (map_fault e) = []
raw_keys (map_next k raw rest) = k ∷ raw_keys rest

-- The tree has no fault and no number that is not finite, and no map in it has a key twice.
abbrev mutual
  pub IsStrict : Raw → Type 0
  IsStrict (raw_f64 bits) = (n : Number) × (from_f64 bits ≡ some n)
  IsStrict (raw_seq items) = AreStrict items
  IsStrict (raw_map fields) = Distinct (raw_keys fields) × HoldStrict fields
  IsStrict (raw_fault e) = ⊥
  IsStrict _ = Unit

  pub AreStrict : RawItems → Type 0
  AreStrict seq_end = Unit
  AreStrict (seq_fault e) = ⊥
  AreStrict (seq_next raw rest) = IsStrict raw × AreStrict rest

  pub HoldStrict : RawFields → Type 0
  HoldStrict map_end = Unit
  HoldStrict (map_fault e) = ⊥
  HoldStrict (map_next k raw rest) = IsStrict raw × HoldStrict rest

finite :
    {v : Json} (o : Option Number)
    → (ok_or o "non-finite JSON number" >>= λ n. ok (number n)) ≡ ok v
    → (n : Number) × (o ≡ some n)
finite none h = cc
finite (some n) h = (n, refl)

key_not_later :
    (key : Text) (later seen : List Text)
    → ((k : Text) → contains k later ≡ true → contains k (insert key seen) ≡ false)
    → contains key later ≡ false
key_not_later key later seen f =
    ground (arith, f key, contains-insert key key seen, same_iff key key)

key_fresh :
    (key : Text) (later seen : List Text)
    → not (contains key seen) ≡ true
    → ((k : Text) → contains k later ≡ true → contains k (insert key seen) ≡ false)
    → (k : Text) → contains k (key ∷ later) ≡ true
    → contains k seen ≡ false
unfolding contains
key_fresh key later seen h f k m = ground (arith, f k, contains-insert k key seen, same_iff k key)

-- None of the keys to come has been seen.
abbrev Fresh : RawFields → List Text → Type 0
Fresh fields seen = (k : Text) → contains k (raw_keys fields) ≡ true → contains k seen ≡ false

mutual
  unfolding visit contains

  visit_sound : (raw : Raw) {v : Json} → visit raw ≡ ok v → IsStrict raw
  visit_sound (raw_bool b) h = tt
  visit_sound (raw_i64_below_0 n) h = tt
  visit_sound (raw_u64 n) h = tt
  visit_sound (raw_f64 bits) h = finite (from_f64 bits) h
  visit_sound (raw_string s) h = tt
  visit_sound raw_none h = tt
  visit_sound (raw_seq items) h =
      let (vs, a, b) = >>=-eq-ok (visit_seq items) _ h in items_strict items a
  visit_sound (raw_map fields) h =
      let (vs, a, b) = >>=-eq-ok (visit_map fields [] empty) _ h in
      let (d, f, all) = fields_strict fields [] empty a in (d, all)
  visit_sound (raw_fault e) h = cc

  items_strict : (items : RawItems) {vs : Items} → visit_seq items ≡ ok vs → AreStrict items
  items_strict seq_end h = tt
  items_strict (seq_fault e) h = cc
  items_strict (seq_next raw rest) h =
      let (v, a, b) = >>=-eq-ok (visit raw) _ h in
      let (vs, c, d) = >>=-eq-ok (visit_seq rest) _ b in (visit_sound raw a, items_strict rest c)

  fields_strict :
      (fields : RawFields) (seen : List Text) (values : Members) {vs : Members}
      → visit_map fields seen values ≡ ok vs
      → Distinct (raw_keys fields) × Fresh fields seen × HoldStrict fields
  fields_strict map_end seen values h = (tt, λ k m. cc, tt)
  fields_strict (map_fault e) seen values h = cc
  fields_strict (map_next k raw rest) seen values h =
      let (a, b) = >>-eq-ok (ensure (not (contains k seen)) _) _ h in
      let (v, c, d) = >>=-eq-ok (visit raw) _ b in
      let (distinct, fresh, all) = fields_strict rest (insert k seen) (put_member k v values) d in
      (
        (key_not_later k (raw_keys rest) seen fresh, distinct),
        key_fresh k (raw_keys rest) seen (ensure-eq-ok _ _ a) fresh,
        (visit_sound raw c, all),
      )

seen_after :
    (key : Text) (later seen : List Text)
    → contains key later ≡ false
    → ((k : Text) → contains k (key ∷ later) ≡ true → contains k seen ≡ false)
    → ((k : Text) → contains k later ≡ true → contains k (insert key seen) ≡ false)
      × (contains key seen ≡ false)
unfolding contains
seen_after key later seen h f = (
  λ k m. ground (arith, f k, contains-insert k key seen, same_iff k key),
  ground (arith, f key, same_iff key key),
)

mutual
  unfolding visit contains

  visit_complete : (raw : Raw) → IsStrict raw → (v : Json) × (visit raw ≡ ok v)
  visit_complete (raw_bool b) h = (bool b, refl)
  visit_complete (raw_i64_below_0 n) h = (number (negative n), refl)
  visit_complete (raw_u64 n) h = (number (unsigned n), refl)
  visit_complete (raw_f64 bits) (n, h) = (number n, rw h refl)
  visit_complete (raw_string s) h = (string s, refl)
  visit_complete raw_none h = (null, refl)
  visit_complete (raw_seq items) h = let (vs, e) = items_complete items h in (array vs, rw e refl)
  visit_complete (raw_map fields) h =
      let (vs, e) = fields_complete fields [] empty h.0 (λ k m. refl) h.1 in (object vs, rw e refl)
  visit_complete (raw_fault e) h = absurd h

  items_complete : (items : RawItems) → AreStrict items → (vs : Items) × (visit_seq items ≡ ok vs)
  items_complete seq_end h = (nil, refl)
  items_complete (seq_fault e) h = absurd h
  items_complete (seq_next raw rest) h =
      let (v, a) = visit_complete raw h.0 in
      let (vs, b) = items_complete rest h.1 in (cons v vs, rw (a, b) refl)

  fields_complete :
      (fields : RawFields) (seen : List Text) (values : Members)
      → Distinct (raw_keys fields)
      → Fresh fields seen
      → HoldStrict fields
      → (vs : Members) × (visit_map fields seen values ≡ ok vs)
  fields_complete map_end seen values d f h = (values, refl)
  fields_complete (map_fault e) seen values d f h = absurd h
  fields_complete (map_next k raw rest) seen values d f h =
      let (later, now) = seen_after k (raw_keys rest) seen d.0 f in
      let (v, a) = visit_complete raw h.0 in
      let (vs, b) = fields_complete rest (insert k seen) (put_member k v values) d.1 later h.1 in
      (vs, rw (now, a) b)

-- The visitor of src/strict_json.rs succeeds on what the deserializer hands it exactly if that has
-- no fault and no number that is not finite, and no object in it, at any depth, has a key twice.
pub visit_iff : (raw : Raw) → (is_ok_with (visit raw) (λ _. true) ≡ true) ↔ IsStrict raw
visit_iff raw = (
  λ h. let (v, e, _) = (is_ok_with_iff (visit raw) _).0 h in visit_sound raw e,
  λ h. let (v, e) = visit_complete raw h in (is_ok_with_iff (visit raw) _).1 (v, e, refl),
)

-- The value of a key among the fields that the deserializer hands over.
abbrev pub raw_value : Text → RawFields → Option Raw
raw_value k map_end = none
raw_value k (map_fault e) = none
raw_value k (map_next j raw rest) = if same k j then some raw else raw_value k rest

-- The members hold at `k` the strict reading of `raw`, and nothing where there is no such field.
abbrev pub HoldsReading : Option Raw → Option Json → Option Json → Type 0
HoldsReading none old now = now ≡ old
HoldsReading (some raw) old now = (v : Json) × (visit raw ≡ ok v) × (now ≡ some v)

no_raw_value :
    (k : Text) (fields : RawFields)
    → contains k (raw_keys fields) ≡ false
    → raw_value k fields ≡ none
unfolding contains
no_raw_value k map_end h = refl
no_raw_value k (map_fault e) h = refl
no_raw_value k (map_next j raw rest) h = ground (arith, no_raw_value k rest)

members_hold :
    (fields : RawFields) (seen : List Text) (values : Members) {vs : Members}
    → Distinct (raw_keys fields)
    → visit_map fields seen values ≡ ok vs
    → (k : Text) → HoldsReading (raw_value k fields) (find_member k values) (find_member k vs)
unfolding visit
members_hold map_end seen values d h k = ground arith
members_hold (map_fault e) seen values d h k = cc
members_hold (map_next j raw rest) seen values {vs} d h k =
    let (a, b) = >>-eq-ok (ensure (not (contains j seen)) _) _ h in
    let (v, c, more) = >>=-eq-ok (visit raw) _ b in
    let later = members_hold rest (insert j seen) (put_member j v values) {vs = vs} d.1 more k in
    elim (Bool-cases (same k j)) [
      | inl e ↦ rw e (v, c, here v (no_raw_value k rest (ground (arith, d, same_iff k j))) later e)
      | inr n ↦ rw n (rw (find_member-put k j v values, n) at later)
    ]
  where
    here :
        (v : Json)
        → raw_value k rest ≡ none
        → HoldsReading (raw_value k rest) (find_member k (put_member j v values)) (find_member k vs)
        → same k j ≡ true
        → find_member k vs ≡ some v
    here v none_left later e = ground (arith, rw none_left at later, find_member-put k j v values)

-- An object that the visitor of src/strict_json.rs accepts holds, at every key, the strict reading
-- of the one value that its text gives the key, and holds no other key.
pub visit_map_holds :
    (fields : RawFields) (vs : Members)
    → visit (raw_map fields) ≡ ok (object vs)
    → (k : Text) → HoldsReading (raw_value k fields) none (find_member k vs)
unfolding visit
visit_map_holds fields vs h k =
    let d = (visit_sound (raw_map fields) h).0 in
    unfold find_member in members_hold fields [] empty {vs = vs} d (ground arith) k

-- `parse_strict` of src/strict_json.rs succeeds exactly if the visitor accepts what was read and
-- nothing but white space follows the value.
pub parse_strict_iff :
    (json : Deserializer) (bytes : List ℕ)
    → (is_ok_with (parse_strict json bytes) (λ _. true) ≡ true)
      ↔ (IsStrict (json.read bytes) × (json.finish bytes ≡ ok tt))
unfolding parse_strict
parse_strict_iff json bytes = ground (arith, visit_iff (json.read bytes))
