-- ===== src/Text/Find.antt =====
-- Slices and the number of characters of a kind.
use Prim.Native.Char.{Char, code}
use Prim.Native.String.{[] as empty, ◌∷◌ as cons}
use databricks_ucx.Text.Pieces.{is_empty}
use databricks_ucx.Prelude.{Option, none, some, ℕ, nat_eq, zero, suc, String, Bool, if◌then◌else◌}

unfoldable pub is_slash : Char → Bool
is_slash c = nat_eq (code c) 47

-- s[:n]
unfoldable pub take_chars : ℕ → String → String
take_chars zero s = empty
take_chars (suc n) empty = empty
take_chars (suc n) (cons c s) = cons c (take_chars n s)

-- s.count(c)
unfoldable pub count_char : (Char → Bool) → String → ℕ
count_char is_it empty = 0
count_char is_it (cons c s) = let rest = count_char is_it s in if is_it c then suc rest else rest

-- A text that is neither None nor "", as `if x` tests it.
abbrev pub set_text : Option String → Option String
set_text none = none
set_text (some s) = if is_empty s then none else some s
