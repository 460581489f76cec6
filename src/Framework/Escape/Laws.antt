-- ===== src/Framework/Escape/Laws.antt =====
-- What `escape_sql_identifier` promises of the parts of a path.
use Prim.Native.String.append
use Prim.Native.String.{[] as empty, ◌∷◌ as cons, ◌++◌}
use databricks_ucx.Prelude.{
  ℕ, zero, suc, String, Bool, true, false, ◌||◌, ◌&&◌, List, [], ◌∷◌, map, All, ◌≡◌, refl, ap, ◌∙◌,
  arith, inl, inr, ◌⊎◌, sym,
}
use databricks_ucx.Text.{
  all_chars, first_is, last_is, lstrip, rstrip, lstrip-eq_self, rstrip-eq_self, split_dot, join_dot,
  no_dot, is_dot, IsSplit, split_dot-IsSplit, split_dot-join_dot, join_dot-split_dot,
  all_chars-append, all_chars-lstrip, all_chars-rstrip,
}
use databricks_ucx.Framework.Escape.Parts.{
  is_allowed, is_backtick, backticked, escape_part, escape_sql_identifier,
}

backticked-eq-cons : (p : String) → backticked p ≡ cons "`" (p ++ cons "`" empty)
unfolding backticked
backticked-eq-cons p = rw append.cons (rw append.nil)

first_is-backticked : (p : String) → first_is is_backtick (backticked p) ≡ true
first_is-backticked p = rw backticked-eq-cons (unfold first_is is_backtick in refl)

no_dot-backticked : (p : String) → no_dot p ≡ true → no_dot (backticked p) ≡ true
unfolding backticked
no_dot-backticked p h =
    all_chars-append _ "`" (p ++ "`") (unfold all_chars is_dot in refl)
      (all_chars-append _ p "`" h (unfold all_chars is_dot in refl))

no_dot_stripped :
    (p : String) → no_dot p ≡ true → no_dot (rstrip is_backtick (lstrip is_backtick p)) ≡ true
no_dot_stripped p h = all_chars-rstrip _ is_backtick _ (all_chars-lstrip _ is_backtick p h)

escape_part-no_dot : (o : Bool) (p : String) → no_dot p ≡ true → no_dot (escape_part o p) ≡ true
unfolding escape_part
escape_part-no_dot o p h =
    let s = rstrip is_backtick (lstrip is_backtick p) in
    ground (arith, h, no_dot_stripped p h, no_dot-backticked s (no_dot_stripped p h))

-- Stripping changes nothing where it is reached.
stripped-eq_self :
    (p : String)
    → first_is is_backtick p ≡ false
    → last_is is_backtick p ≡ false
    → rstrip is_backtick (lstrip is_backtick p) ≡ p
stripped-eq_self p h k = rw (lstrip-eq_self is_backtick p h) (rstrip-eq_self is_backtick p k)

escape_part_cases :
    (o : Bool) (p : String) → (escape_part o p ≡ p) ⊎ (escape_part o p ≡ backticked p)
unfolding escape_part
escape_part_cases o p = ground (arith, stripped-eq_self p)

escape_part-backticked : (o : Bool) (p : String) → escape_part o (backticked p) ≡ backticked p
unfolding escape_part
escape_part-backticked o p = ground (arith, first_is-backticked p)

escape_part_idem : (o : Bool) (p : String) → escape_part o (escape_part o p) ≡ escape_part o p
escape_part_idem o p = elim (escape_part_cases o p) [
  | inl e ↦ ap (escape_part o) e
  | inr e ↦ ap (escape_part o) e ∙ escape_part-backticked o p ∙ sym e
]

-- A part of a result: it begins or ends with a backtick, or escaping is optional and every
-- character is allowed.
abbrev pub IsSafePart : Bool → String → Type 0
IsSafePart o p =
    (first_is is_backtick p || last_is is_backtick p || o && all_chars is_allowed p) ≡ true

escape_part-IsSafePart : (o : Bool) (p : String) → IsSafePart o (escape_part o p)
unfolding escape_part
escape_part-IsSafePart o p =
    ground (arith, first_is-backticked (rstrip is_backtick (lstrip is_backtick p)))

escape_part_of_allowed : (p : String) → all_chars is_allowed p ≡ true → escape_part true p ≡ p
unfolding escape_part
escape_part_of_allowed p h = ground (arith, stripped-eq_self p)

All-map_safe : (o : Bool) (ps : List String) → All (IsSafePart o) (map (escape_part o) ps)
All-map_safe o [] = tt
All-map_safe o (p ∷ ps) = (escape_part-IsSafePart o p, All-map_safe o ps)

map_of_allowed :
    (ps : List String)
    → All (λ p. all_chars is_allowed p ≡ true) ps
    → map (escape_part true) ps ≡ ps
map_of_allowed [] h = refl
map_of_allowed (p ∷ ps) h = cc (escape_part_of_allowed p h.0, map_of_allowed ps h.1)

map-IsSplit :
    (f : String → String)
    → ((p : String) → no_dot p ≡ true → no_dot (f p) ≡ true)
    → (k : ℕ) (ps : List String) → IsSplit k ps
    → IsSplit k (map f ps)
map-IsSplit f keep zero (p ∷ []) h = tt
map-IsSplit f keep (suc k) (p ∷ []) h = keep p h
map-IsSplit f keep (suc k) (p ∷ q ∷ ps) h = (keep p h.0, map-IsSplit f keep k (q ∷ ps) h.1)
map-IsSplit f keep zero (p ∷ q ∷ ps) h = absurd h
map-IsSplit f keep k [] h = absurd h

map_idem :
    (f : String → String)
    → ((p : String) → f (f p) ≡ f p)
    → (ps : List String) → map f (map f ps) ≡ map f ps
map_idem f idem [] = refl
map_idem f idem (p ∷ ps) = cc (idem p, map_idem f idem ps)

-- The parts of an escaped path are the escaped parts of the path.
pub split_dot-escape_sql_identifier :
    (path : String) (o : Bool)
    → split_dot 2 (escape_sql_identifier path o) ≡ map (escape_part o) (split_dot 2 path)
unfolding escape_sql_identifier
split_dot-escape_sql_identifier path o = split_dot-join_dot 2 _ (
    map-IsSplit (escape_part o) (escape_part-no_dot o) 2 (split_dot 2 path)
      (split_dot-IsSplit 2 path))

-- Escaping an escaped path again, with the same flag, changes nothing.
pub escape_sql_identifier_idem :
    (path : String) (o : Bool)
    → escape_sql_identifier (escape_sql_identifier path o) o ≡ escape_sql_identifier path o
unfolding escape_sql_identifier
escape_sql_identifier_idem path o =
    ap (λ ps. join_dot (map (escape_part o) ps)) (split_dot-escape_sql_identifier path o)
    ∙ ap join_dot (map_idem (escape_part o) (escape_part_idem o) (split_dot 2 path))

-- Every part of an escaped path begins or ends with a backtick, unless escaping is optional and the
-- part has only letters, digits and underscores.
pub escape_sql_identifier-IsSafePart :
    (path : String) (o : Bool) → All (IsSafePart o) (split_dot 2 (escape_sql_identifier path o))
escape_sql_identifier-IsSafePart path o =
    rw split_dot-escape_sql_identifier (All-map_safe o (split_dot 2 path))

-- A path whose parts hold only letters, digits and underscores is left as it is when escaping is
-- optional.
pub escape_sql_identifier_of_allowed :
    (path : String)
    → All (λ p. all_chars is_allowed p ≡ true) (split_dot 2 path)
    → escape_sql_identifier path true ≡ path
unfolding escape_sql_identifier
escape_sql_identifier_of_allowed path h =
    ap join_dot (map_of_allowed (split_dot 2 path) h) ∙ join_dot-split_dot 2 path
