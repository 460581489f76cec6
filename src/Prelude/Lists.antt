-- ===== src/Prelude/Lists.antt =====
-- Lists: Python's `in`, filters with a Boolean test, and membership as data.
use Prim.Native.Nat.{ℕ, suc, ◌+◌, ◌≤◌}
use mathlib.Core.Path.{◌≡◌, refl, sym, subst}
use mathlib.Core.Logic.{◌⊎◌, inl, inr}
use mathlib.Core.Bool.{Bool, true, false, ◌||◌}
use mathlib.Core.List.Memᴰ as M
use mathlib.Core.List.{List, [], ◌∷◌, ◌++◌, Memᴰ, filter_map}
use mathlib.Core.Option.{Option, some}
use native.Mathlib.Omega.{arith}
use databricks_ucx.Prelude.Equality.{Eq, ◌==◌}
use databricks_ucx.Prelude.Tests.{if◌then◌else◌, Bool-cases, Option-cases}

module _ {ℓ} {A : Type ℓ} where
  abbrev pub length : List A → ℕ
  length [] = 0
  length (x ∷ xs) = suc (length xs)

  abbrev pub All {κ} : (A → Type κ) → List A → Type κ
  All P [] = Unit
  All P (x ∷ xs) = P x × All P xs

  -- [x for x in xs if p(x)]
  unfoldable pub filter : (A → Bool) → List A → List A
  filter p [] = []
  filter p (x ∷ xs) = let rest = filter p xs in if p x then x ∷ rest else rest

  unfoldable pub any : (A → Bool) → List A → Bool
  any p [] = false
  any p (x ∷ xs) = p x || any p xs

  pub length-append : (xs ys : List A) → length (xs ++ ys) ≡ length xs + length ys
  length-append [] ys = omega arith
  length-append (x ∷ xs) ys = omega (arith, length-append xs ys)

module _ {ℓ} {A : Type ℓ} (p : A → Bool) where
  Memᴰ-kept :
      {a x : A} {xs : List A}
      → p x ≡ true
      → (a ≡ x) ⊎ Memᴰ a xs × (p a ≡ true)
      → Memᴰ a (x ∷ xs) × (p a ≡ true)
  Memᴰ-kept h (inl e) = (Memᴰ.head e, subst (λ y. p y ≡ true) (sym e) h)
  Memᴰ-kept h (inr (m, k)) = (Memᴰ.tail m, k)

  pub Memᴰ-filter : {a : A} (xs : List A) → Memᴰ a (filter p xs) → Memᴰ a xs × (p a ≡ true)
  unfolding filter
  Memᴰ-filter [] m = elim m [ ]
  Memᴰ-filter (x ∷ xs) m = elim (Bool-cases (p x)) [
    | inl e ↦
        Memᴰ-kept e
          (elim (M.cases_cons (rw e at m)) [ inl h ↦ inl h | inr n ↦ inr (Memᴰ-filter xs n) ])
    | inr e ↦ let (n, h) = Memᴰ-filter xs (rw e at m) in (Memᴰ.tail n, h)
  ]

  pub filter-Memᴰ : {a : A} {xs : List A} → Memᴰ a xs → p a ≡ true → Memᴰ a (filter p xs)
  unfolding filter
  filter-Memᴰ (Memᴰ.head e) h = rw (subst (λ y. p y ≡ true) e h) (Memᴰ.head e)
  filter-Memᴰ (Memᴰ.tail {x = x} m) h = elim (Bool-cases (p x)) [
    | inl e ↦ rw e (Memᴰ.tail (filter-Memᴰ m h))
    | inr e ↦ rw e (filter-Memᴰ m h)
  ]

  pub length-filter-le : (xs : List A) → length (filter p xs) ≤ length xs
  unfolding filter
  length-filter-le [] = omega arith
  length-filter-le (x ∷ xs) = ground (arith, length-filter-le xs)

module _ {ℓ κ} {A : Type ℓ} {B : Type κ} (f : A → Option B) where
  -- A loop that skips some elements and yields one value for each of the others.
  pub Memᴰ-filter_map :
      {b : B} (xs : List A) → Memᴰ b (filter_map f xs) → (a : A) × Memᴰ a xs × (f a ≡ some b)
  unfolding filter_map
  Memᴰ-filter_map [] m = elim m [ ]
  Memᴰ-filter_map (x ∷ xs) m = elim (Option-cases (f x)) [
    | inl e ↦ let (a, n, h) = Memᴰ-filter_map xs (rw (e, filter_map) at m) in (a, Memᴰ.tail n, h)
    | inr (c, e) ↦ elim (M.cases_cons (rw (e, filter_map) at m)) [
      | inl h ↦ (x, Memᴰ.head refl, rw h e)
      | inr k ↦ let (a, n, h) = Memᴰ-filter_map xs k in (a, Memᴰ.tail n, h)
    ]
  ]

  pub filter_map-Memᴰ :
      {a : A} {b : B} {xs : List A} → Memᴰ a xs → f a ≡ some b → Memᴰ b (filter_map f xs)
  unfolding filter_map
  filter_map-Memᴰ (Memᴰ.head e) h = rw (← e, h, filter_map) (Memᴰ.head refl)
  filter_map-Memᴰ (Memᴰ.tail {x = x} m) h = elim (Option-cases (f x)) [
    | inl e ↦ rw (e, filter_map) (filter_map-Memᴰ m h)
    | inr (c, e) ↦ rw (e, filter_map) (Memᴰ.tail (filter_map-Memᴰ m h))
  ]

module _ {ℓ} {A : Type ℓ} ⦃e : Eq A⦄ where
  -- x in xs
  unfoldable pub mem : A → List A → Bool
  mem a [] = false
  mem a (x ∷ xs) = x == a || mem a xs

  pub mem→Memᴰ : (a : A) (xs : List A) → mem a xs ≡ true → Memᴰ a xs
  unfolding mem
  mem→Memᴰ a (x ∷ xs) h = elim (Bool-cases (x == a)) [
    | inl k ↦ Memᴰ.head (sym ((e.beq_iff x a).0 k))
    | inr k ↦ Memᴰ.tail (mem→Memᴰ a xs (rw k at h))
  ]
  mem→Memᴰ a [] h = cc

  pub Memᴰ→mem : {a : A} {xs : List A} → Memᴰ a xs → mem a xs ≡ true
  unfolding mem
  Memᴰ→mem {a} (Memᴰ.head {x = x} h) = rw ((e.beq_iff x a).1 (sym h))
  Memᴰ→mem {a} (Memᴰ.tail {x = x} m) = ground (arith, Memᴰ→mem m)
