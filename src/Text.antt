-- ===== src/Text.antt =====
-- Rust's `str`: a list of the bytes of its UTF-8 form, so that `len`, `bytes`, `==`, `<` and
-- `strip_prefix` are the byte operations that they are in Rust. The methods are those that
-- src/*.rs call; the repository does not define them.
pub mod Order
pub mod Trim
pub mod Utf8
pub mod Decimal
pub mod Lines
use Prim.Native.Char.{code}
use evidence_workbench.Prelude.{
  ℕ, ◌≡◌, refl, ◌↔◌, Bool, true, false, not, ◌&&◌, ◌||◌, List, [], ◌∷◌, ◌++◌, ap, String, Option,
  none, some, arith, leb, ◌==◌, if◌then◌else◌, reverse, Bool-cases, inl, inr,
}

abbrev pub Text : Type 0
Text = List ℕ

-- A literal: all that the source writes are ASCII.
unfoldable pub lit : String → Text
lit String.[] = []
lit (String.◌∷◌ c s) = code c ∷ lit s

unfoldable pub same : Text → Text → Bool
same [] [] = true
same (x ∷ xs) (y ∷ ys) = x == y && same xs ys
same _ _ = false

pub same_iff : (a b : Text) → (same a b ≡ true) ↔ (a ≡ b)
unfolding same
same_iff [] [] = (λ _. refl, λ _. refl)
same_iff [] (y ∷ ys) = (λ h. cc, λ h. cc)
same_iff (x ∷ xs) [] = (λ h. cc, λ h. cc)
same_iff (x ∷ xs) (y ∷ ys) = ground (arith, same_iff xs ys)

pub same_refl : (a : Text) → same a a ≡ true
same_refl a = (same_iff a a).1 refl

pub same_comm : (a b : Text) → same a b ≡ same b a
same_comm a b = ground (arith, same_iff a b, same_iff b a)

-- `u8::is_ascii_lowercase` and its kin.
unfoldable pub is_lower : ℕ → Bool
is_lower c = leb b'a' c && leb c b'z'

unfoldable pub is_upper : ℕ → Bool
is_upper c = leb b'A' c && leb c b'Z'

unfoldable pub is_digit : ℕ → Bool
is_digit c = leb b'0' c && leb c b'9'

unfoldable pub is_alphanumeric : ℕ → Bool
unfolding is_lower is_upper is_digit
is_alphanumeric c = is_lower c || is_upper c || is_digit c

unfoldable pub is_hexdigit : ℕ → Bool
unfolding is_digit
is_hexdigit c = is_digit c || (leb b'a' c && leb c b'f') || (leb b'A' c && leb c b'F')

-- `value.strip_prefix(prefix)`.
unfoldable pub strip_prefix : Text → Text → Option Text
strip_prefix value [] = some value
strip_prefix [] (p ∷ ps) = none
strip_prefix (x ∷ xs) (p ∷ ps) = let rest = strip_prefix xs ps in if x == p then rest else none

pub strip_prefix_sound :
    (value start : Text) {rest : Text}
    → strip_prefix value start ≡ some rest
    → value ≡ start ++ rest
unfolding strip_prefix
strip_prefix_sound value [] h = ground arith
strip_prefix_sound [] (p ∷ ps) h = cc
strip_prefix_sound (x ∷ xs) (p ∷ ps) {rest} h =
    ground (arith, strip_prefix_sound xs ps {rest = rest})

pub strip_prefix_append : (start rest : Text) → strip_prefix (start ++ rest) start ≡ some rest
unfolding strip_prefix
strip_prefix_append [] rest = refl
strip_prefix_append (p ∷ ps) rest = ground (arith, strip_prefix_append ps rest)

unfoldable pub starts_with : Text → Text → Bool
unfolding strip_prefix
starts_with value start = elim (strip_prefix value start) [ none ↦ false | some _ ↦ true ]

unfoldable pub ends_with : Text → Text → Bool
unfolding starts_with
ends_with value finish = starts_with (reverse value) (reverse finish)

unfoldable pub contains_byte : ℕ → Text → Bool
contains_byte c [] = false
contains_byte c (x ∷ xs) = x == c || contains_byte c xs

-- `value.contains(piece)`.
unfoldable pub contains_text : Text → Text → Bool
unfolding starts_with
contains_text [] piece = starts_with [] piece
contains_text (x ∷ xs) piece = starts_with (x ∷ xs) piece || contains_text xs piece

abbrev pub onto_first : ℕ → List Text → List Text
onto_first x [] = (x ∷ []) ∷ []
onto_first x (part ∷ parts) = (x ∷ part) ∷ parts

-- `value.split(c)`: always at least one part.
unfoldable pub split : ℕ → Text → List Text
split c [] = [] ∷ []
split c (x ∷ xs) = let parts = split c xs in if x == c then [] ∷ parts else onto_first x parts

-- `value.split_once(c)`.
unfoldable pub split_once : ℕ → Text → Option (Text × Text)
split_once c [] = none
split_once c (x ∷ xs) =
    if x == c
    then some ([], xs)
    else elim (split_once c xs) [ none ↦ none | some (name, rest) ↦ some (x ∷ name, rest) ]
