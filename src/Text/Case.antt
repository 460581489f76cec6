-- ===== src/Text/Case.antt =====
-- str.lower and str.upper on the letters of ASCII.
use Prim.Native.Nat.{compare, Ordering}
use Prim.Native.Char.{Char, char, code, nul, IsScalar}
use text.Mathlib.TextEquality.{Char-path}
use databricks_ucx.Prelude.{
  ℕ, ◌+◌, ◌-◌, ◌<◌, ◌≡◌, refl, ap, sym, ◌∙◌, String, ◌&&◌, leb, if◌then◌else◌, arith,
}

IsScalar_of_lt : (n : ℕ) → compare n 55296 ≡ Ordering.lt → IsScalar n
IsScalar_of_lt n h = rw h tt

of_code_at : (n : ℕ) (o : Ordering) → compare n 55296 ≡ o → Char
of_code_at n Ordering.lt h = char n (IsScalar_of_lt n h)
of_code_at n _ h = nul

-- The character of a number below the surrogates.
of_code : ℕ → Char
unfolding of_code_at IsScalar_of_lt
of_code n = of_code_at n (compare n 55296) refl

code-of_code_at :
    (n : ℕ) (o : Ordering) (h : compare n 55296 ≡ o) → n < 55296 → code (of_code_at n o h) ≡ n
unfolding of_code_at
code-of_code_at n Ordering.lt h lt = refl
code-of_code_at n Ordering.eq h lt = absurd (ground arith)
code-of_code_at n Ordering.gt h lt = absurd (ground arith)

code-of_code : (n : ℕ) → n < 55296 → code (of_code n) ≡ n
unfolding of_code
code-of_code n lt = code-of_code_at n (compare n 55296) refl lt

lower_code : ℕ → ℕ
lower_code n = if leb 65 n && leb n 90 then n + 32 else n

upper_code : ℕ → ℕ
upper_code n = if leb 97 n && leb n 122 then n - 32 else n

lower_char : Char → Char
unfolding of_code
lower_char c = if leb 65 (code c) && leb (code c) 90 then of_code (code c + 32) else c

upper_char : Char → Char
unfolding of_code
upper_char c = if leb 97 (code c) && leb (code c) 122 then of_code (code c - 32) else c

unfoldable pub lower : String → String
unfolding lower_char
lower String.[] = String.[]
lower (String.◌∷◌ c s) = String.◌∷◌ (lower_char c) (lower s)

unfoldable pub upper : String → String
unfolding upper_char
upper String.[] = String.[]
upper (String.◌∷◌ c s) = String.◌∷◌ (upper_char c) (upper s)

code-lower_char : (c : Char) → code (lower_char c) ≡ lower_code (code c)
unfolding lower_char lower_code
code-lower_char c = ground (arith, code-of_code (code c + 32))

lower_code_idem : (n : ℕ) → lower_code (lower_code n) ≡ lower_code n
unfolding lower_code
lower_code_idem n = ground arith

lower_char_idem : (c : Char) → lower_char (lower_char c) ≡ lower_char c
lower_char_idem c = Char-path _ _ (
    code-lower_char (lower_char c)
    ∙ ap lower_code (code-lower_char c)
    ∙ lower_code_idem (code c)
    ∙ sym (code-lower_char c))

-- Lowering a text twice is lowering it once.
pub lower_idem : (s : String) → lower (lower s) ≡ lower s
unfolding lower
lower_idem String.[] = refl
lower_idem (String.◌∷◌ c s) = cc (lower_char_idem c, lower_idem s)

upper_sample : upper "delta-1" ≡ "DELTA-1"
unfolding upper
upper_sample = refl
