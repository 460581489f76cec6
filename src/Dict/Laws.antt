-- ===== src/Dict/Laws.antt =====
-- The laws of `dict`.
use mathlib.Core.List.Memᴰ as M
use mathlib.Core.List.{Memᴰ}
use databricks_ucx.Prelude.{
  Eq, ◌==◌, List, [], ◌∷◌, Option, none, some, if◌then◌else◌, ◌≡◌, refl, ap, ◌∙◌, ◌⊎◌, inl, inr,
  Bool-cases, arith,
}
use databricks_ucx.Dict.{Dict, get, put, update, of_pairs}

module _ {ℓ κ} {K : Type ℓ} {V : Type κ} ⦃e : Eq K⦄ where
  -- Reading any key after a write.
  pub get-put :
      (k j : K) (v : V) (d : Dict K V) → get j (put k v d) ≡ (if k == j then some v else get j d)
  unfolding get put
  get-put k j v [] = refl
  get-put k j v ((i, w) ∷ d) =
      ground (arith, e.beq_iff k j, e.beq_iff i k, e.beq_iff i j, get-put k j v d)

  pub get→Memᴰ : (k : K) (v : V) (d : Dict K V) → get k d ≡ some v → Memᴰ {A = K × V} (k, v) d
  unfolding get
  get→Memᴰ k v [] h = cc
  get→Memᴰ k v ((j, w) ∷ d) h = elim (Bool-cases (j == k)) [
    | inl same ↦ Memᴰ.head (cc ((e.beq_iff j k).0 same, rw same at h))
    | inr other ↦ Memᴰ.tail (get→Memᴰ k v d (rw other at h))
  ]

  -- The value that the last pair with the key has.
  unfoldable pub last_of : K → List (K × V) → Option V → Option V
  last_of k [] o = o
  last_of k ((j, v) ∷ ps) o = last_of k ps (if j == k then some v else o)

  pub get-update :
      (k : K) (d : Dict K V) (ps : List (K × V)) → get k (update d ps) ≡ last_of k ps (get k d)
  unfolding update last_of
  get-update k d [] = refl
  get-update k d ((j, v) ∷ ps) = get-update k (put j v d) ps ∙ ap (last_of k ps) (get-put j k v d)

  pub Memᴰ-put :
      (k : K) (v : V) (d : Dict K V) {p : K × V} → Memᴰ p (put k v d) → (p ≡ (k, v)) ⊎ Memᴰ p d
  unfolding put
  Memᴰ-put k v [] m = elim (M.cases_cons m) [ inl h ↦ inl h | inr n ↦ elim n [ ] ]
  Memᴰ-put k v ((j, w) ∷ d) m = elim (Bool-cases (j == k)) [
    | inl same ↦ elim (M.cases_cons (rw (same) at m)) [
      | inl h ↦ inl (cc (h, (e.beq_iff j k).0 same))
      | inr n ↦ inr (Memᴰ.tail n)
    ]
    | inr other ↦ elim (M.cases_cons (rw other at m)) [
      | inl h ↦ inr (Memᴰ.head h)
      | inr n ↦ elim (Memᴰ-put k v d n) [ inl h ↦ inl h | inr n' ↦ inr (Memᴰ.tail n') ]
    ]
  ]

  -- Every item of an updated dictionary is one of the pairs or was there before.
  pub Memᴰ-update :
      (d : Dict K V) (ps : List (K × V)) {p : K × V} → Memᴰ p (update d ps) → Memᴰ p ps ⊎ Memᴰ p d
  unfolding update
  Memᴰ-update d [] m = inr m
  Memᴰ-update d ((k, v) ∷ ps) m = elim (Memᴰ-update (put k v d) ps m) [
    | inl n ↦ inl (Memᴰ.tail n)
    | inr n ↦ elim (Memᴰ-put k v d n) [ inl h ↦ inl (Memᴰ.head h) | inr n' ↦ inr n' ]
  ]

  pub Memᴰ-of_pairs : (ps : List (K × V)) {p : K × V} → Memᴰ p (of_pairs ps) → Memᴰ p ps
  unfolding of_pairs
  Memᴰ-of_pairs ps m = elim (Memᴰ-update [] ps m) [ inl n ↦ n | inr n ↦ elim n [ ] ]

  pub get-of_pairs : (k : K) (ps : List (K × V)) → get k (of_pairs ps) ≡ last_of k ps none
  unfolding of_pairs get
  get-of_pairs k ps = get-update k [] ps

  -- No key stands twice.
  abbrev pub NoDup : Dict K V → Type (ℓ ⊔ κ)
  NoDup [] = Unit
  NoDup ((k, v) ∷ d) = (get k d ≡ none) × NoDup d

  put-NoDup : (k : K) (v : V) (d : Dict K V) → NoDup d → NoDup (put k v d)
  unfolding put get
  put-NoDup k v [] h = (refl, tt)
  put-NoDup k v ((j, w) ∷ d) h = elim (Bool-cases (j == k)) [
    | inl same ↦ rw same h
    | inr other ↦
        rw other
          ((get-put k j v d ∙ ground (arith, e.beq_iff k j, e.beq_iff j k), put-NoDup k v d h.1))
  ]

  update-NoDup : (d : Dict K V) (ps : List (K × V)) → NoDup d → NoDup (update d ps)
  unfolding update
  update-NoDup d [] h = h
  update-NoDup d ((k, v) ∷ ps) h = update-NoDup (put k v d) ps (put-NoDup k v d h)

  pub of_pairs-NoDup : (ps : List (K × V)) → NoDup (of_pairs ps)
  unfolding of_pairs
  of_pairs-NoDup ps = update-NoDup [] ps tt

  -- An item of a dictionary is what its key reads.
  pub Memᴰ→get :
      (k : K) (v : V) (d : Dict K V) → NoDup d → Memᴰ {A = K × V} (k, v) d → get k d ≡ some v
  unfolding get
  Memᴰ→get k v [] h m = elim m [ ]
  Memᴰ→get k v ((j, w) ∷ d) h m = elim (M.cases_cons m) [
    | inl p ↦ ground (arith, ap (λ (q : K × V). q.0) p, ap (λ (q : K × V). q.1) p, e.beq_iff j k)
    | inr n ↦ ground (arith, Memᴰ→get k v d h.1 n, e.beq_iff j k)
  ]
