-- ===== src/Text/Pieces.antt =====
-- str.strip, str.startswith and str.endswith with one character, and `in`.
use Prim.Native.Char.{Char}
use Prim.Native.String.{[] as empty, ◌∷◌ as cons}
use text.Mathlib.Text.{find?}
use databricks_ucx.Prelude.{
  ◌≡◌, refl, String, Bool, true, false, ◌&&◌, if◌then◌else◌, is_some, arith,
}

-- part in text
abbrev pub contains : String → String → Bool
contains text part = is_some (find? text part)

unfoldable pub all_chars : (Char → Bool) → String → Bool
all_chars p empty = true
all_chars p (cons c s) = p c && all_chars p s

unfoldable pub first_is : (Char → Bool) → String → Bool
first_is p empty = false
first_is p (cons c s) = p c

unfoldable pub last_is : (Char → Bool) → String → Bool
last_is p empty = false
last_is p (cons c empty) = p c
last_is p (cons c s) = last_is p s

unfoldable pub is_empty : String → Bool
is_empty empty = true
is_empty (cons c s) = false

unfoldable pub lstrip : (Char → Bool) → String → String
lstrip p empty = empty
lstrip p (cons c s) = let rest = lstrip p s in if p c then rest else cons c s

unfoldable pub rstrip : (Char → Bool) → String → String
unfolding is_empty
rstrip p empty = empty
rstrip p (cons c s) = let rest = rstrip p s in if p c && is_empty rest then empty else cons c rest

-- A text that neither begins nor ends with such a character is left as it is.
pub lstrip-eq_self : (p : Char → Bool) (s : String) → first_is p s ≡ false → lstrip p s ≡ s
unfolding lstrip first_is
lstrip-eq_self p empty h = refl
lstrip-eq_self p (cons c s) h = ground arith

pub rstrip-eq_self : (p : Char → Bool) (s : String) → last_is p s ≡ false → rstrip p s ≡ s
unfolding rstrip last_is
rstrip-eq_self p empty h = refl
rstrip-eq_self p (cons c empty) h = ground arith
rstrip-eq_self p (cons c (cons d s)) h = ground (arith, rstrip-eq_self p (cons d s) h)
