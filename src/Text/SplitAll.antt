-- ===== src/Text/SplitAll.antt =====
-- text.split(".") with no limit.
use Prim.Native.String.append
use Prim.Native.String.{[] as empty, ◌∷◌ as cons}
use Prim.Native.Char.{Char}
use databricks_ucx.Prelude.{
  String, true, false, List, [], ◌∷◌, ◌≡◌, refl, ap, sym, subst, ◌∙◌, Bool-cases, inl, inr,
}
use databricks_ucx.Text.Split.{is_dot, dot, push, join_dot, is_dot→eq}

unfoldable pub split_dots : String → List String
split_dots empty = empty ∷ []
split_dots (cons c s) = elim (is_dot c) [
  | true ↦ empty ∷ split_dots s
  | false ↦ push c (split_dots s)
]

abbrev NotNil : List String → Type 0
NotNil [] = ⊥
NotNil (p ∷ ps) = Unit

push-NotNil : (c : Char) (ps : List String) → NotNil (push c ps)
push-NotNil c [] = tt
push-NotNil c (p ∷ ps) = tt

split_dots_at :
    (c : Char) (s : String) → is_dot c ≡ true → split_dots (cons c s) ≡ empty ∷ split_dots s
unfolding split_dots
split_dots_at c s e = rw (e, split_dots)

split_dots_on :
    (c : Char) (s : String) → is_dot c ≡ false → split_dots (cons c s) ≡ push c (split_dots s)
unfolding split_dots
split_dots_on c s e = rw (e, split_dots)

split_dots-NotNil : (s : String) → NotNil (split_dots s)
unfolding split_dots
split_dots-NotNil empty = tt
split_dots-NotNil (cons c s) = elim (Bool-cases (is_dot c)) [
  | inl e ↦ subst NotNil (sym (split_dots_at c s e)) tt
  | inr e ↦ subst NotNil (sym (split_dots_on c s e)) (push-NotNil c (split_dots s))
]

join_dot-empty : (ps : List String) → NotNil ps → join_dot (empty ∷ ps) ≡ cons dot (join_dot ps)
unfolding join_dot
join_dot-empty (p ∷ ps) h = rw append.nil
join_dot-empty [] h = absurd h

join_dot-push_char :
    (c : Char) (ps : List String) → NotNil ps → join_dot (push c ps) ≡ cons c (join_dot ps)
unfolding join_dot
join_dot-push_char c (p ∷ []) h = refl
join_dot-push_char c (p ∷ q ∷ ps) h = rw append.cons
join_dot-push_char c [] h = absurd h

-- Joining the parts gives the text back.
pub join_dot-split_dots : (s : String) → join_dot (split_dots s) ≡ s
join_dot-split_dots empty = unfold split_dots join_dot in refl
join_dot-split_dots (cons c s) = elim (Bool-cases (is_dot c)) [
  | inl e ↦
      ap join_dot (split_dots_at c s e)
      ∙ join_dot-empty (split_dots s) (split_dots-NotNil s)
      ∙ cc (join_dot-split_dots s, is_dot→eq c e)
  | inr e ↦
      ap join_dot (split_dots_on c s e)
      ∙ join_dot-push_char c (split_dots s) (split_dots-NotNil s)
      ∙ cc (join_dot-split_dots s)
]
