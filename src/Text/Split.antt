-- ===== src/Text/Split.antt =====
-- path.split(".", maxsplit=k) and ".".join(parts).
use Prim.Native.Char.{Char, code}
use Prim.Native.String.append
use Prim.Native.String.{[] as empty, ◌∷◌ as cons, ◌++◌}
use text.Mathlib.TextEquality.{Char-path}
use databricks_ucx.Prelude.{
  ℕ, zero, suc, ◌≡◌, refl, sym, subst, ap, ◌∙◌, String, Bool, true, false, not, List, [], ◌∷◌,
  nat_eq, arith, Bool-cases, inl, inr,
}
use databricks_ucx.Text.Pieces.{all_chars}

abbrev pub dot : Char
dot = "."

unfoldable pub is_dot : Char → Bool
is_dot c = nat_eq (code c) 46

abbrev pub push : Char → List String → List String
push c [] = cons c empty ∷ []
push c (p ∷ ps) = cons c p ∷ ps

-- At most `k` splits, from the left; the rest of the text is the last part.
unfoldable pub split_dot : ℕ → String → List String
split_dot zero s = s ∷ []
split_dot (suc k) empty = empty ∷ []
split_dot (suc k) (cons c s) = elim (is_dot c) [
  | true ↦ empty ∷ split_dot k s
  | false ↦ push c (split_dot (suc k) s)
]

unfoldable pub join_dot : List String → String
join_dot [] = empty
join_dot (p ∷ []) = p
join_dot (p ∷ ps) = p ++ cons dot (join_dot ps)

abbrev pub no_dot : String → Bool
no_dot p = all_chars (λ c. not (is_dot c)) p

-- The parts of a split: at least one, at most `suc k`, and only the last of `suc k` may hold a dot.
abbrev pub IsSplit : ℕ → List String → Type 0
IsSplit k [] = ⊥
IsSplit zero (p ∷ []) = Unit
IsSplit zero (p ∷ q ∷ ps) = ⊥
IsSplit (suc k) (p ∷ []) = no_dot p ≡ true
IsSplit (suc k) (p ∷ q ∷ ps) = (no_dot p ≡ true) × IsSplit k (q ∷ ps)

push-IsSplit :
    (k : ℕ) (c : Char) (ps : List String)
    → is_dot c ≡ false
    → IsSplit (suc k) ps
    → IsSplit (suc k) (push c ps)
unfolding all_chars
push-IsSplit k c (p ∷ []) h s = ground arith
push-IsSplit k c (p ∷ q ∷ ps) h s = (ground arith, s.1)
push-IsSplit k c [] h s = absurd s

cons-IsSplit :
    (k : ℕ) (p : String) (ps : List String)
    → no_dot p ≡ true
    → IsSplit k ps
    → IsSplit (suc k) (p ∷ ps)
cons-IsSplit k p [] h s = absurd s
cons-IsSplit k p (q ∷ ps) h s = (h, s)

split_dot_at :
    (k : ℕ) (c : Char) (s : String)
    → is_dot c ≡ true
    → split_dot (suc k) (cons c s) ≡ empty ∷ split_dot k s
unfolding split_dot
split_dot_at k c s e = rw (e, split_dot)

split_dot_on :
    (k : ℕ) (c : Char) (s : String)
    → is_dot c ≡ false
    → split_dot (suc k) (cons c s) ≡ push c (split_dot (suc k) s)
unfolding split_dot
split_dot_on k c s e = rw (e, split_dot)

pub split_dot-IsSplit : (k : ℕ) (s : String) → IsSplit k (split_dot k s)
unfolding split_dot all_chars
split_dot-IsSplit zero s = tt
split_dot-IsSplit (suc k) empty = refl
split_dot-IsSplit (suc k) (cons c s) = elim (Bool-cases (is_dot c)) [
  | inl e ↦
      subst (IsSplit (suc k)) (sym (split_dot_at k c s e))
        (cons-IsSplit k empty (split_dot k s) refl (split_dot-IsSplit k s))
  | inr e ↦
      subst (IsSplit (suc k)) (sym (split_dot_on k c s e))
        (push-IsSplit k c (split_dot (suc k) s) e (split_dot-IsSplit (suc k) s))
]

split_dot_last : (k : ℕ) (p : String) → no_dot p ≡ true → split_dot (suc k) p ≡ p ∷ []
unfolding split_dot all_chars
split_dot_last k empty h = refl
split_dot_last k (cons c p) h = elim (Bool-cases (is_dot c)) [
  | inl e ↦ ground arith
  | inr e ↦ split_dot_on k c p e ∙ ap (push c) (split_dot_last k p (rw e at h))
]

split_dot-append :
    (k : ℕ) (p rest : String)
    → no_dot p ≡ true
    → split_dot (suc k) (p ++ cons dot rest) ≡ p ∷ split_dot k rest
unfolding split_dot all_chars is_dot
split_dot-append k empty rest h = rw append.nil
split_dot-append k (cons c p) rest h = elim (Bool-cases (is_dot c)) [
  | inl e ↦ ground arith
  | inr e ↦ rw append.cons (
      split_dot_on k c (p ++ cons dot rest) e ∙ ap (push c) (split_dot-append k p rest (rw e at h)))
]

-- Splitting the joined parts of a split gives the parts back.
pub split_dot-join_dot : (k : ℕ) (ps : List String) → IsSplit k ps → split_dot k (join_dot ps) ≡ ps
unfolding join_dot split_dot
split_dot-join_dot zero (p ∷ []) h = refl
split_dot-join_dot (suc k) (p ∷ []) h = split_dot_last k p h
split_dot-join_dot (suc k) (p ∷ q ∷ ps) h =
    split_dot-append k p (join_dot (q ∷ ps)) h.0
    ∙ ap (λ rest. p ∷ rest) (split_dot-join_dot k (q ∷ ps) h.1)
split_dot-join_dot zero (p ∷ q ∷ ps) h = absurd h
split_dot-join_dot k [] h = absurd h

join_dot-push :
    (k : ℕ) (c : Char) (ps : List String)
    → IsSplit k ps
    → join_dot (push c ps) ≡ cons c (join_dot ps)
unfolding join_dot
join_dot-push k c (p ∷ []) h = refl
join_dot-push k c (p ∷ q ∷ ps) h = rw append.cons
join_dot-push k c [] h = absurd h

pub is_dot→eq : (c : Char) → is_dot c ≡ true → c ≡ dot
unfolding is_dot
is_dot→eq c h = Char-path c dot (ground arith)

join_dot-cons :
    (k : ℕ) (ps : List String) → IsSplit k ps → join_dot (empty ∷ ps) ≡ cons dot (join_dot ps)
unfolding join_dot
join_dot-cons k (p ∷ ps) h = rw append.nil
join_dot-cons k [] h = absurd h

-- Joining the parts of a split gives the text back.
pub join_dot-split_dot : (k : ℕ) (s : String) → join_dot (split_dot k s) ≡ s
unfolding split_dot
join_dot-split_dot zero s = unfold join_dot in refl
join_dot-split_dot (suc k) empty = unfold join_dot in refl
join_dot-split_dot (suc k) (cons c s) = elim (Bool-cases (is_dot c)) [
  | inl e ↦
      ap join_dot (split_dot_at k c s e)
      ∙ join_dot-cons k (split_dot k s) (split_dot-IsSplit k s)
      ∙ cc (join_dot-split_dot k s, is_dot→eq c e)
  | inr e ↦
      ap join_dot (split_dot_on k c s e)
      ∙ join_dot-push (suc k) c (split_dot (suc k) s) (split_dot-IsSplit (suc k) s)
      ∙ cc (join_dot-split_dot (suc k) s)
]

split_dot_sample : split_dot 2 "a.b.c.d" ≡ "a" ∷ "b" ∷ "c.d" ∷ []
unfolding split_dot is_dot
split_dot_sample = refl
