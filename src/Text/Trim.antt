-- ===== src/Text/Trim.antt =====
-- `str::trim` and its kin: Unicode white space (the property White_Space), read in UTF-8.
pub mod Runs
use evidence_workbench.Prelude.{
  ℕ, Bool, false, ◌&&◌, ◌||◌, [], ◌∷◌, leb, ◌==◌, if◌then◌else◌, reverse,
}
use evidence_workbench.Text.{Text}

-- A character of one byte, of two, and of three.
unfoldable pub space1 : ℕ → Bool
space1 a = (leb 9 a && leb a 13) || a == 32

unfoldable pub space2 : ℕ → ℕ → Bool
space2 a b = a == 0xC2 && (b == 0x85 || b == 0xA0)

unfoldable pub space3 : ℕ → ℕ → ℕ → Bool
space3 a b c =
    (a == 0xE1 && b == 0x9A && c == 0x80)
    || (a == 0xE2
        && b == 0x80
        && ((leb 0x80 c && leb c 0x8A) || c == 0xA8 || c == 0xA9 || c == 0xAF))
    || (a == 0xE2 && b == 0x81 && c == 0x9F)
    || (a == 0xE3 && b == 0x80 && c == 0x80)

-- Drops characters from the front while they pass the test for their width.
module _ (one : ℕ → Bool) (two : ℕ → ℕ → Bool) (three : ℕ → ℕ → ℕ → Bool) where
  unfoldable pub strip_front : Text → Text
  strip_front [] = []
  strip_front (a ∷ []) = if one a then [] else a ∷ []
  strip_front (a ∷ b ∷ []) =
      let rest = strip_front (b ∷ []) in if one a then rest else if two a b then [] else a ∷ b ∷ []
  strip_front (a ∷ b ∷ c ∷ t) =
      let rest1 = strip_front (b ∷ c ∷ t) in
      let rest2 = strip_front (c ∷ t) in
      let rest3 = strip_front t in
      if one a
      then rest1
      else if two a b
      then rest2
      else if three a b c
      then rest3
      else a ∷ b ∷ c ∷ t

unfoldable pub trim_start : Text → Text
unfolding strip_front space1 space2 space3
trim_start = strip_front space1 space2 space3

unfoldable pub trim_end : Text → Text
unfolding strip_front space1 space2 space3
trim_end v = reverse (strip_front space1 (λ b a. space2 a b) (λ c b a. space3 a b c) (reverse v))

-- `value.trim()`.
unfoldable pub trim : Text → Text
unfolding trim_start trim_end
trim v = trim_end (trim_start v)

-- `line.trim_end_matches(['\r', '\n'])`.
unfoldable pub trim_end_newlines : Text → Text
unfolding strip_front
trim_end_newlines v =
    reverse
      (strip_front (λ c. c == b'\r' || c == b'\n') (λ a b. false) (λ a b c. false) (reverse v))
