-- ===== src/Dict/Values.antt =====
-- The values of a dictionary and the last value under a key.
use mathlib.Core.List.{Memᴰ}
use mathlib.Core.List.Memᴰ as M
use databricks_ucx.Prelude.{
  true, ◌==◌, List, [], ◌∷◌, Option, some, ◌≡◌, refl, sym, ap, arith, inl, inr, Bool-cases, Eq,
}
use databricks_ucx.Dict.{Dict, get, has, values}
use databricks_ucx.Dict.Laws.{last_of}

module _ {ℓ κ} {K : Type ℓ} {V : Type κ} where
  pub Memᴰ-values : (d : Dict K V) {v : V} → Memᴰ v (values d) → (k : K) × Memᴰ {A = K × V} (k, v) d
  unfolding values
  Memᴰ-values [] m = elim m [ ]
  Memᴰ-values ((k, w) ∷ d) m = elim (M.cases_cons m) [
    | inl e ↦ (k, Memᴰ.head (cc (e)))
    | inr n ↦ let (j, n') = Memᴰ-values d n in (j, Memᴰ.tail n')
  ]

  pub values-Memᴰ : {k : K} {v : V} {d : Dict K V} → Memᴰ {A = K × V} (k, v) d → Memᴰ v (values d)
  unfolding values
  values-Memᴰ (Memᴰ.head e) = Memᴰ.head (ap (λ (p : K × V). p.1) e)
  values-Memᴰ (Memᴰ.tail m) = Memᴰ.tail (values-Memᴰ m)

module _ {ℓ κ} {K : Type ℓ} {V : Type κ} ⦃e : Eq K⦄ where
  pub Memᴰ-has : (k : K) (v : V) (d : Dict K V) → Memᴰ {A = K × V} (k, v) d → has k d ≡ true
  unfolding get
  Memᴰ-has k v [] m = elim m [ ]
  Memᴰ-has k v ((j, w) ∷ d) m = elim (M.cases_cons m) [
    | inl p ↦ ground (arith, ap (λ (q : K × V). q.0) p, e.beq_iff j k)
    | inr n ↦ ground (arith, Memᴰ-has k v d n)
  ]

  last_of-some : (k : K) (v : V) (ps : List (K × V)) → (w : V) × (last_of k ps (some v) ≡ some w)
  unfolding last_of
  last_of-some k v [] = (v, refl)
  last_of-some k v ((j, w) ∷ ps) = elim (Bool-cases (j == k)) [
    | inl h ↦ rw h (last_of-some k w ps)
    | inr h ↦ rw h (last_of-some k v ps)
  ]

  pub Memᴰ-last_of :
      (k : K) (v : V) (ps : List (K × V)) (o : Option V)
      → Memᴰ {A = K × V} (k, v) ps
      → (w : V) × (last_of k ps o ≡ some w)
  unfolding last_of
  Memᴰ-last_of k v [] o m = elim m [ ]
  Memᴰ-last_of k v ((j, w) ∷ ps) o m = elim (M.cases_cons m) [
    | inl p ↦
        let same : (j == k) ≡ true = (e.beq_iff j k).1 (ap (λ (q : K × V). q.0) (sym p)) in
        rw same (last_of-some k w ps)
    | inr n ↦ Memᴰ-last_of k v ps _ n
  ]
