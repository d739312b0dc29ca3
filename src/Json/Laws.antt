-- ===== src/Json/Laws.antt =====
-- `==` of JSON values, which does not see the sign of a zero, and lookup after `insert`.
use evidence_workbench.Prelude.{
  ap, ◌&&◌, ◌≡◌, refl, ◌↔◌, true, false, some, arith, if◌then◌else◌, and_iff,
}
use evidence_workbench.Text.{Text, same, same_iff}
use evidence_workbench.Json.{
  is_zero, double, unsigned, negative, Number, Json, null, bool, number, string, array, object,
  Items, nil, cons, Members, empty, member, same_number, same_json, same_items, same_members,
  find_member, put_member,
}

-- The number with 0.0 for -0.0.
abbrev unsigned_zero : Number → Number
unsigned_zero (negative n) = negative n
unsigned_zero (unsigned n) = unsigned n
unsigned_zero (double bits) = double (if is_zero bits then 0 else bits)

-- The value with 0.0 for each -0.0.
unfoldable mutual
  pub plus_zero : Json → Json
  plus_zero null = null
  plus_zero (bool b) = bool b
  plus_zero (number n) = number (unsigned_zero n)
  plus_zero (string s) = string s
  plus_zero (array items) = array (plus_zero_items items)
  plus_zero (object members) = object (plus_zero_members members)

  plus_zero_items : Items → Items
  plus_zero_items nil = nil
  plus_zero_items (cons v items) = cons (plus_zero v) (plus_zero_items items)

  plus_zero_members : Members → Members
  plus_zero_members empty = empty
  plus_zero_members (member k v members) = member k (plus_zero v) (plus_zero_members members)

same_number_iff : (a b : Number) → (same_number a b ≡ true) ↔ (unsigned_zero a ≡ unsigned_zero b)
unfolding same_number
same_number_iff (negative a) b = ground arith
same_number_iff (unsigned a) b = ground arith
same_number_iff (double a) b = ground arith

mutual
  unfolding same_json plus_zero

  json_sound : (a b : Json) → same_json a b ≡ true → plus_zero a ≡ plus_zero b
  json_sound null b h = ground arith
  json_sound (bool true) b h = ground arith
  json_sound (bool false) b h = ground arith
  json_sound (number a) (number b) h = ap number ((same_number_iff a b).0 h)
  json_sound (string a) (string b) h = ground (arith, same_iff a b)
  json_sound (array a) (array b) h = ap array (items_sound a b h)
  json_sound (object a) (object b) h = ap object (members_sound a b h)
  json_sound _ _ h = cc

  items_sound : (a b : Items) → same_items a b ≡ true → plus_zero_items a ≡ plus_zero_items b
  items_sound nil b h = ground arith
  items_sound (cons a as') nil h = cc
  items_sound (cons a as') (cons b bs) h =
      let (p, q) = (and_iff (same_json a b) (same_items as' bs)).0 h in
      cc (json_sound a b p, items_sound as' bs q)

  members_sound :
      (a b : Members) → same_members a b ≡ true → plus_zero_members a ≡ plus_zero_members b
  members_sound empty b h = ground arith
  members_sound (member j a as') empty h = cc
  members_sound (member j a as') (member k b bs) h =
      let (pq, r) = (and_iff (same j k && same_json a b) (same_members as' bs)).0 h in
      let (p, q) = (and_iff (same j k) (same_json a b)).0 pq in
      cc ((same_iff j k).0 p, json_sound a b q, members_sound as' bs r)

mutual
  unfolding same_json plus_zero

  json_complete : (a b : Json) → plus_zero a ≡ plus_zero b → same_json a b ≡ true
  json_complete null null h = refl
  json_complete (bool true) (bool true) h = refl
  json_complete (bool false) (bool false) h = refl
  json_complete (number a) (number b) h = (same_number_iff a b).1 (cc h)
  json_complete (string a) (string b) h = (same_iff a b).1 (cc h)
  json_complete (array a) (array b) h = items_complete a b (cc h)
  json_complete (object a) (object b) h = members_complete a b (cc h)
  json_complete _ _ h = cc

  items_complete : (a b : Items) → plus_zero_items a ≡ plus_zero_items b → same_items a b ≡ true
  items_complete nil nil h = refl
  items_complete nil (cons b bs) h = cc
  items_complete (cons a as') nil h = cc
  items_complete (cons a as') (cons b bs) h =
      (and_iff (same_json a b) (same_items as' bs)).1
        (json_complete a b (cc h), items_complete as' bs (cc h))

  members_complete :
      (a b : Members) → plus_zero_members a ≡ plus_zero_members b → same_members a b ≡ true
  members_complete empty empty h = refl
  members_complete empty (member k b bs) h = cc
  members_complete (member j a as') empty h = cc
  members_complete (member j a as') (member k b bs) h =
      (and_iff (same j k && same_json a b) (same_members as' bs)).1 (
        (and_iff (same j k) (same_json a b)).1 ((same_iff j k).1 (cc h), json_complete a b (cc h)),
        members_complete as' bs (cc h),
      )

-- Values are equal if they are the same up to the signs of their zeros.
pub same_json_iff : (a b : Json) → (same_json a b ≡ true) ↔ (plus_zero a ≡ plus_zero b)
same_json_iff a b = (json_sound a b, json_complete a b)

pub find_member-put :
    (j k : Text) (v : Json) (m : Members)
    → find_member j (put_member k v m) ≡ (if same j k then some v else find_member j m)
unfolding find_member put_member
find_member-put j k v empty = refl
find_member-put j k v (member i w m) =
    ground (arith, find_member-put j k v m, same_iff k i, same_iff j i, same_iff j k)
