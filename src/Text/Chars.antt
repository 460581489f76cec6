-- ===== src/Text/Chars.antt =====
-- What stripping and concatenation keep of a property of all characters.
use Prim.Native.Char.{Char}
use Prim.Native.String.append
use Prim.Native.String.{[] as empty, ◌∷◌ as cons, ◌++◌}
use databricks_ucx.Prelude.{String, Bool, true, ◌≡◌, refl, arith}
use databricks_ucx.Text.Pieces.{all_chars, lstrip, rstrip}

module _ (f : Char → Bool) where
  pub all_chars-append :
      (s t : String) → all_chars f s ≡ true → all_chars f t ≡ true → all_chars f (s ++ t) ≡ true
  unfolding all_chars
  all_chars-append empty t h k = rw append.nil k
  all_chars-append (cons c s) t h k =
      rw append.cons (ground (arith, all_chars-append s t (ground arith) k))

  pub all_chars-lstrip :
      (p : Char → Bool) (s : String) → all_chars f s ≡ true → all_chars f (lstrip p s) ≡ true
  unfolding all_chars lstrip
  all_chars-lstrip p empty h = refl
  all_chars-lstrip p (cons c s) h = ground (arith, all_chars-lstrip p s (ground arith))

  pub all_chars-rstrip :
      (p : Char → Bool) (s : String) → all_chars f s ≡ true → all_chars f (rstrip p s) ≡ true
  unfolding all_chars rstrip
  all_chars-rstrip p empty h = refl
  all_chars-rstrip p (cons c s) h = ground (arith, all_chars-rstrip p s (ground arith))
