-- ===== src/Framework/Crawler/Laws.antt =====
-- The names and the inventory snapshot of `CrawlerBase`.
use databricks_ucx.Prelude.{
  String, true, List, [], ◌∷◌, ◌++◌, Option, none, some, ◌≡◌, refl, sym, ◌⊎◌, arith, inl, inr, ◌∙◌,
  ap,
}
use databricks_ucx.Text.{no_dot, split_dot, split_dot-join_dot}
use databricks_ucx.Exec.{Result, ok, err, not_found, Exec, pure, ◌>>=◌, continue, continue-eq-ok}
use databricks_ucx.Framework.Crawler.{Names, init_names, full_name, or_crawl, snapshot}

init_names-eq-ok :
    (catalog schema table : String) {n : Names}
    → init_names catalog schema table ≡ ok n
    → (n ≡ record { catalog = catalog; schema = schema; table = table })
      × (no_dot catalog ≡ true)
      × (no_dot schema ≡ true)
      × (no_dot table ≡ true)
unfolding init_names
init_names-eq-ok catalog schema table h = ground arith

-- Where a crawler could be made of three names, its full name splits into exactly these names.
pub split_dot-full_name :
    (catalog schema table : String) {n : Names}
    → init_names catalog schema table ≡ ok n
    → split_dot 2 (full_name n) ≡ catalog ∷ schema ∷ table ∷ []
unfolding full_name
split_dot-full_name catalog schema table h =
    let (same, c, s, t) = init_names-eq-ok catalog schema table h in
    ap (λ (m : Names). split_dot 2 (full_name m)) same
    ∙ split_dot-join_dot 2 (catalog ∷ schema ∷ table ∷ []) (c, (s, tt))

Stored-cases {ℓ} :
    {A : Type ℓ} (o : Option (List A))
    → ((o ≡ none) ⊎ (o ≡ some [])) ⊎ ((row : A) × (rows : List A) × (o ≡ some (row ∷ rows)))
Stored-cases none = inl (inl refl)
Stored-cases (some []) = inl (inr refl)
Stored-cases (some (row ∷ rows)) = inr (row, rows, refl)

-- What the program relies on of the SQL backend about one inventory table: a fetch returns the rows
-- and changes nothing, or raises NotFound where there is no table; an append adds the rows, and
-- creates the table; a crawl does not write to it.
pub record Inventory {ℓ κ} (W : Type ℓ) (A : Type κ) : Type (ℓ ⊔ κ) where
  pub stored : W → Option (List A)
  pub fetch : Exec W (List A)
  pub append : List A → Exec W (Unit {0})
  pub fetch_rows : (w : W) (rows : List A) → stored w ≡ some rows → fetch w ≡ (ok rows, w)
  pub fetch_missing : (w : W) → stored w ≡ none → fetch w ≡ (err not_found, w)
  pub append_stored :
      (w : W) (rows : List A)
      → (append rows w).0 ≡ ok tt
      → stored (append rows w).1 ≡ some (elim (stored w) [ none ↦ rows | some old ↦ old ++ rows ])

module _ {ℓ κ} {W : Type ℓ} {A : Type κ} (i : Inventory W A) (crawl : Exec W (List A)) where
  open i use {stored, fetch, append, fetch_rows, fetch_missing, append_stored}

  -- Where the inventory has a row, a snapshot returns the rows as they are and changes nothing.
  pub snapshot_cached :
      (w : W) (row : A) (rows : List A)
      → stored w ≡ some (row ∷ rows)
      → snapshot fetch crawl append w ≡ (ok (row ∷ rows), w)
  unfolding snapshot
  snapshot_cached w row rows h = rw (fetch_rows w (row ∷ rows) h)

  snapshot_crawled :
      (w : W)
      → (stored w ≡ none) ⊎ (stored w ≡ some [])
      → snapshot fetch crawl append w ≡ or_crawl crawl append none w
  unfolding snapshot
  snapshot_crawled w (inl h) = rw (fetch_missing w h)
  snapshot_crawled w (inr h) = rw (fetch_rows w [] h)

  append_crawled :
      (rows : List A) (w : W) {row : A} {rest : List A} {w' : W}
      → (stored w ≡ none) ⊎ (stored w ≡ some [])
      → continue (λ _. pure rows) (append rows w) ≡ (ok (row ∷ rest), w')
      → stored w' ≡ some (row ∷ rest)
  append_crawled rows w h r =
      let (_, done, e) = continue-eq-ok (λ _. pure rows) (append rows w) r in
      ground (arith, append_stored w rows done, ap (λ (p : Result (List A) × W). p.1) e)

  crawled_stored :
      (w : W) {row : A} {rest : List A} {w' : W}
      → ((v : W) → stored (crawl v).1 ≡ stored v)
      → (stored w ≡ none) ⊎ (stored w ≡ some [])
      → or_crawl crawl append none w ≡ (ok (row ∷ rest), w')
      → stored w' ≡ some (row ∷ rest)
  crawled_stored w keep h r =
      let (rows, _, e) =
        continue-eq-ok (λ (rows : List A). append rows >>= λ _. pure rows) (crawl w) r in
      append_crawled rows (crawl w).1 (rw (keep w) h) e

  -- Where the crawl does not write to the inventory, a snapshot with a row, cached or crawled, is
  -- what the next snapshot returns, and the next one changes nothing.
  pub snapshot_again :
      (w : W) (row : A) (rows : List A) {w' : W}
      → ((v : W) → stored (crawl v).1 ≡ stored v)
      → snapshot fetch crawl append w ≡ (ok (row ∷ rows), w')
      → snapshot fetch crawl append w' ≡ (ok (row ∷ rows), w')
  snapshot_again w row rows {w'} keep r = elim (Stored-cases (stored w)) [
    | inl h ↦ snapshot_cached w' row rows (crawled_stored w keep h (sym (snapshot_crawled w h) ∙ r))
    | inr (old, olds, h) ↦
        let e = sym (snapshot_cached w old olds h) ∙ r in
        snapshot_cached w' row rows (
          ground (
            arith,
            h,
            ap (λ (p : Result (List A) × W). p.0) e,
            ap (λ (p : Result (List A) × W). p.1) e,
          ))
  ]
