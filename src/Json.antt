-- ===== src/Json.antt =====
-- `serde_json::Value`, with objects as ordered maps (`serde_json::Map` without the feature
-- `preserve_order`), and the accessors that src/*.rs use.
pub mod Laws
use evidence_workbench.Prelude.{
  ℕ, Bool, true, false, ◌&&◌, ◌||◌, Option, none, some, List, [], ◌∷◌, ◌==◌, if◌then◌else◌,
}
use evidence_workbench.Text.{Text, same}
use evidence_workbench.Text.Order.{before}

-- A number is an `i64` below 0 (its distance from 0), a `u64`, or the bits of an `f64`, which is
-- finite in every value that serde_json makes.
pub data Number : Type 0 where
  negative : ℕ → Number
  unsigned : ℕ → Number
  double : ℕ → Number

mutual
  pub data Json : Type 0 where
    null : Json
    bool : Bool → Json
    number : Number → Json
    string : Text → Json
    array : Items → Json
    object : Members → Json

  pub data Items : Type 0 where
    nil : Items
    cons : Json → Items → Items

  pub data Members : Type 0 where
    empty : Members
    member : Text → Json → Members → Members

-- The bits of 0.0 and of -0.0.
abbrev pub is_zero : ℕ → Bool
is_zero bits = bits == 0 || bits == 9223372036854775808

-- Finite numbers of type `f64` are equal if their bits are, or if both are a zero.
unfoldable pub same_number : Number → Number → Bool
same_number (negative a) (negative b) = a == b
same_number (unsigned a) (unsigned b) = a == b
same_number (double a) (double b) = a == b || (is_zero a && is_zero b)
same_number _ _ = false

unfoldable mutual
  pub same_json : Json → Json → Bool
  same_json null null = true
  same_json (bool true) (bool true) = true
  same_json (bool false) (bool false) = true
  same_json (number a) (number b) = same_number a b
  same_json (string a) (string b) = same a b
  same_json (array a) (array b) = same_items a b
  same_json (object a) (object b) = same_members a b
  same_json _ _ = false

  pub same_items : Items → Items → Bool
  same_items nil nil = true
  same_items (cons a as') (cons b bs) = same_json a b && same_items as' bs
  same_items _ _ = false

  pub same_members : Members → Members → Bool
  same_members empty empty = true
  same_members (member j a as') (member k b bs) = same j k && same_json a b && same_members as' bs
  same_members _ _ = false

-- `object.get(key)`.
unfoldable pub find_member : Text → Members → Option Json
find_member k empty = none
find_member k (member j v m) = if same k j then some v else find_member k m

-- `object.insert(key, value)`.
unfoldable pub put_member : Text → Json → Members → Members
put_member k v empty = member k v empty
put_member k v (member j w m) =
    let rest = put_member k v m in
    if same k j
    then member k v m
    else if before k j
    then member k v (member j w m)
    else member j w rest

-- `object.keys()`.
unfoldable pub member_keys : Members → List Text
member_keys empty = []
member_keys (member k v m) = k ∷ member_keys m

unfoldable pub as_object : Json → Option Members
as_object (object m) = some m
as_object _ = none

unfoldable pub as_str : Json → Option Text
as_str (string s) = some s
as_str _ = none
