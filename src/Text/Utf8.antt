-- ===== src/Text/Utf8.antt =====
-- `std::str::from_utf8`, which src/native.rs and src/run_validation.rs call on process output:
-- the bytes are a text exactly if they are well-formed UTF-8 (Unicode, table 3-7).
use evidence_workbench.Prelude.{
  ℕ, Bool, true, false, ◌&&◌, ◌||◌, [], ◌∷◌, leb, ltb, ◌==◌, if◌then◌else◌, Option, none, some,
}
use evidence_workbench.Text.{Text}

abbrev within : ℕ → ℕ → ℕ → Bool
within lo hi c = leb lo c && leb c hi

abbrev tail_byte : ℕ → Bool
tail_byte = within 0x80 0xBF

lead2 : ℕ → ℕ → Bool
lead2 a b = within 0xC2 0xDF a && tail_byte b

lead3 : ℕ → ℕ → ℕ → Bool
lead3 a b c =
    ((a == 0xE0 && within 0xA0 0xBF b)
      || ((within 0xE1 0xEC a || within 0xEE 0xEF a) && tail_byte b)
      || (a == 0xED && within 0x80 0x9F b))
    && tail_byte c

lead4 : ℕ → ℕ → ℕ → ℕ → Bool
lead4 a b c d =
    ((a == 0xF0 && within 0x90 0xBF b)
      || (within 0xF1 0xF3 a && tail_byte b)
      || (a == 0xF4 && within 0x80 0x8F b))
    && tail_byte c
    && tail_byte d

unfoldable pub is_utf8 : Text → Bool
unfolding lead2 lead3 lead4
is_utf8 [] = true
is_utf8 (a ∷ []) = ltb a 0x80
is_utf8 (a ∷ b ∷ []) = let rest = is_utf8 (b ∷ []) in if ltb a 0x80 then rest else lead2 a b
is_utf8 (a ∷ b ∷ c ∷ []) =
    let rest1 = is_utf8 (b ∷ c ∷ []) in
    let rest2 = is_utf8 (c ∷ []) in
    if ltb a 0x80 then rest1 else if lead2 a b then rest2 else lead3 a b c
is_utf8 (a ∷ b ∷ c ∷ d ∷ t) =
    let rest1 = is_utf8 (b ∷ c ∷ d ∷ t) in
    let rest2 = is_utf8 (c ∷ d ∷ t) in
    let rest3 = is_utf8 (d ∷ t) in
    let rest4 = is_utf8 t in
    if ltb a 0x80
    then rest1
    else if lead2 a b
    then rest2
    else if lead3 a b c
    then rest3
    else if lead4 a b c d
    then rest4
    else false

unfoldable pub from_utf8 : Text → Option Text
unfolding is_utf8
from_utf8 bytes = if is_utf8 bytes then some bytes else none
