-- ===== src/Prelude/Str.antt =====
-- The parts of Rust's `str` that the program calls, on the code points of a text.
use Prim.Native.Nat.{ℕ, zero, suc, ◌+◌}
use mathlib.Core.Path.{◌≡◌, refl}
use mathlib.Core.Bool.{Bool, true, false, ◌&&◌, ◌||◌}
use mathlib.Core.Option.{Option, none, some}
use mathlib.Core.List.{List, [], ◌∷◌, ◌++◌}
use native.Mathlib.Omega.{arith}
use switch_configurator.Prelude.Tests.{ltb, leb, nat_beq, if◌then◌else◌}
use switch_configurator.Prelude.Equality.{Text, codes}
use switch_configurator.Prelude.Lists.{is_empty, length, All}

-- `char::is_ascii_digit`
abbrev pub is_digit : ℕ → Bool
is_digit c = leb 48 c && leb c 57

-- `char::is_whitespace`
unfoldable pub is_whitespace : ℕ → Bool
is_whitespace c =
    leb 9 c && leb c 13
    || nat_beq c 32
    || nat_beq c 0x85
    || nat_beq c 0xa0
    || nat_beq c 0x1680
    || leb 0x2000 c && leb c 0x200a
    || nat_beq c 0x2028
    || nat_beq c 0x2029
    || nat_beq c 0x202f
    || nat_beq c 0x205f
    || nat_beq c 0x3000

-- `char::is_control`
abbrev pub is_control : ℕ → Bool
is_control c = ltb c 32 || leb 127 c && leb c 159

module _ (p : ℕ → Bool) where
  unfoldable pub trim_start_by : Text → Text
  trim_start_by [] = []
  trim_start_by (c ∷ s) = let rest = trim_start_by s in if p c then rest else c ∷ s

  unfoldable pub trim_end_by : Text → Text
  trim_end_by [] = []
  trim_end_by (c ∷ s) = let rest = trim_end_by s in if is_empty rest && p c then [] else c ∷ rest

unfoldable pub trim : Text → Text
unfolding trim_start_by trim_end_by is_whitespace
trim s = trim_end_by is_whitespace (trim_start_by is_whitespace s)

abbrev cons_head : ℕ → List Text → List Text
cons_head c [] = (c ∷ []) ∷ []
cons_head c (s ∷ ss) = (c ∷ s) ∷ ss

-- `split(sep)`: there is always a first part
unfoldable pub split : ℕ → Text → List Text
split sep [] = [] ∷ []
split sep (c ∷ s) = let rest = split sep s in if nat_beq c sep then [] ∷ rest else cons_head c rest

-- `split_once(sep)`
unfoldable pub split_once : ℕ → Text → Option (Text × Text)
split_once sep [] = none
split_once sep (c ∷ s) =
    let rest = split_once sep s in
    if nat_beq c sep
    then some ([], s)
    else elim rest [ none ↦ none | some (a, b) ↦ some (c ∷ a, b) ]

-- `rsplit_once(sep)`
unfoldable pub rsplit_once : ℕ → Text → Option (Text × Text)
rsplit_once sep [] = none
rsplit_once sep (c ∷ s) = elim (rsplit_once sep s) [
  | none ↦ if nat_beq c sep then some ([], s) else none
  | some (a, b) ↦ some (c ∷ a, b)
]

unfoldable pub strip_prefix : Text → Text → Option Text
strip_prefix [] s = some s
strip_prefix (c ∷ p) [] = none
strip_prefix (c ∷ p) (d ∷ s) = let rest = strip_prefix p s in if nat_beq c d then rest else none

-- The first argument bounds the number of times that the prefix is taken off.
unfoldable pub trim_prefix : ℕ → Text → Text → Text
unfolding strip_prefix
trim_prefix zero p s = s
trim_prefix (suc fuel) p s = elim (strip_prefix p s) [
  | none ↦ s
  | some rest ↦ trim_prefix fuel p rest
]

-- `trim_start_matches(p)` for a text `p` that is not empty
unfoldable pub trim_start_matches : Text → Text → Text
unfolding trim_prefix
trim_start_matches p s = trim_prefix (length s) p s

-- `str::len` counts the bytes of the UTF-8.
abbrev pub utf8_width : ℕ → ℕ
utf8_width c = if ltb c 0x80 then 1 else if ltb c 0x800 then 2 else if ltb c 0x10000 then 3 else 4

unfoldable pub utf8_len : Text → ℕ
utf8_len [] = 0
utf8_len (c ∷ s) = utf8_width c + utf8_len s

-- `str::cmp`: the bytes of the UTF-8 are ordered as the code points are.
unfoldable pub text_le : Text → Text → Bool
text_le [] t = true
text_le (c ∷ s) [] = false
text_le (c ∷ s) (d ∷ t) = let rest = text_le s t in ltb c d || nat_beq c d && rest

split_test : split b'/' (codes "1/0/24") ≡ codes "1" ∷ codes "0" ∷ codes "24" ∷ []
unfolding split
split_test = refl

rsplit_test : rsplit_once b':' (codes "a:b:c") ≡ some (codes "a:b", codes "c")
unfolding rsplit_once
rsplit_test = refl

trim_test : trim (codes "  a b ") ≡ codes "a b"
unfolding trim
trim_test = refl

strip_test : trim_start_matches (codes "port") (codes "port24") ≡ codes "24"
unfolding trim_start_matches
strip_test = refl

-- text that a separator does not stand in is one part
pub split_whole : (sep : ℕ) (s : Text) → All (λ c. nat_beq c sep ≡ false) s → split sep s ≡ s ∷ []
unfolding split
split_whole sep [] h = refl
split_whole sep (c ∷ s) (h, hs) = rw (h, split_whole sep s hs)

pub split_once-append :
    (sep : ℕ) (s t : Text)
    → All (λ c. nat_beq c sep ≡ false) s
    → split_once sep (s ++ sep ∷ t) ≡ some (s, t)
unfolding split_once
split_once-append sep [] t h = ground arith
split_once-append sep (c ∷ s) t (h, hs) = rw (h, split_once-append sep s t hs)

-- a text with no character to trim at either end is left as it is
pub trim_end-snoc :
    (p : ℕ → Bool) (s : Text) (c : ℕ) → p c ≡ false → trim_end_by p (s ++ c ∷ []) ≡ s ++ c ∷ []
unfolding trim_end_by
trim_end-snoc p [] c h = ground arith
trim_end-snoc p (d ∷ []) c h = ground arith
trim_end-snoc p (d ∷ x ∷ s) c h = rw (trim_end-snoc p (x ∷ s) c h)

pub text_le_refl : (s : Text) → text_le s s ≡ true
unfolding text_le
text_le_refl [] = refl
text_le_refl (c ∷ s) = ground (arith, text_le_refl s)
