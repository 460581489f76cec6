-- ===== src/HiveMetastore/Locations/InMounts/Laws.antt =====
-- hive_metastore/locations.py: when the search below a mount ends, when it does not, and which tables
-- it leaves out.
use mathlib.Core.List.{Memᴰ}
use databricks_ucx.Prelude.{
  ℕ, zero, suc, ◌<◌, String, String_eq, ◌==◌, true, false, ◌||◌, List, [], ◌∷◌, Option, none, ◌≡◌,
  ◌≢◌, refl, ◌∙◌, arith, inl, inr, Bool-cases, Option-cases,
}
use databricks_ucx.Dict.{get}
use databricks_ucx.Exec.{Error, Result, ok, err}
use databricks_ucx.HiveMetastore.Views.Sequencer.{
  Outcome, returns, raises, out_of_fuel, of_result, ◌>>=◌,
}
use databricks_ucx.HiveMetastore.Locations.InMounts.{
  FileInfo, TableInMount, is_partition, assess_path, is_irrelevant, MountApi, Folders,
  scan_partition, find_partition_file_format, visit_file, visit_files, find_delta_log_folders,
}

abbrev pub IsOver {ℓ} : {A : Type ℓ} → Outcome A → Type ℓ
IsOver o = o ≢ out_of_fuel

returns-IsOver {ℓ} : {A : Type ℓ} (a : A) → IsOver (returns a)
returns-IsOver a h = ground (h, arith)

raises-IsOver {ℓ} : {A : Type ℓ} (e : Error) → IsOver {A = A} (raises e)
raises-IsOver e h = ground (h, arith)

bind-IsOver {ℓ κ} :
    {A : Type ℓ} {B : Type κ} (m : Outcome A) (f : A → Outcome B)
    → IsOver m
    → ((a : A) → m ≡ returns a → IsOver (f a))
    → IsOver (m >>= f)
bind-IsOver (returns a) f h k = k a refl
bind-IsOver (raises e) f h k = raises-IsOver e
bind-IsOver out_of_fuel f h k = absurd (h refl)

-- A listing that is bound to the rest.
listed-IsOver {ℓ κ} :
    {A : Type ℓ} {B : Type κ} (r : Result A) (f : A → Outcome B)
    → ((a : A) → r ≡ ok a → IsOver (f a))
    → IsOver (of_result r >>= f)
listed-IsOver (ok a) f k = k a refl
listed-IsOver (err e) f k = raises-IsOver e

-- A rank that falls from a directory to what it lists, apart from itself, where no directory lists
-- itself as a partition.
pub record IsTree (api : MountApi) (rank : String → ℕ) : Type 0 where
  pub falls :
      (dir : String) (files : List FileInfo) (f : FileInfo)
      → api.ls dir ≡ ok files
      → Memᴰ f files
      → (f.path == dir) ≡ false
      → rank f.path < rank dir
  pub not_itself :
      (dir : String) (files : List FileInfo) (f : FileInfo)
      → api.ls dir ≡ ok files
      → Memᴰ f files
      → is_partition f.name ≡ true
      → (f.path == dir) ≡ false

scan_partition-IsOver :
    (inner : String → Outcome (Option TableInMount)) (files : List FileInfo)
    → ((f : FileInfo) → Memᴰ f files → is_partition f.name ≡ true → IsOver (inner f.path))
    → IsOver (scan_partition inner files)
unfolding scan_partition
scan_partition-IsOver inner [] h = returns-IsOver none
scan_partition-IsOver inner (f ∷ files) h = elim (Option-cases (assess_path f)) [
  | inr (t, e) ↦ rw (scan_partition, e) (returns-IsOver _)
  | inl e ↦ elim (Bool-cases (is_partition f.name)) [
    | inl b ↦ rw (scan_partition, e, b) (h f (Memᴰ.head refl) b)
    | inr b ↦
        rw (scan_partition, e, b) (scan_partition-IsOver inner files (λ g m. h g (Memᴰ.tail m)))
  ]
]

module _ (api : MountApi) (excluded : List String) where
  module _ (partition_of : String → Outcome (Option TableInMount))
      (inner : String → Folders → Outcome Folders) (root_dir : String) where
    visit_file-IsOver :
        (f : FileInfo) (folders : Folders)
        → (is_partition f.name ≡ true → IsOver (partition_of f.path))
        → IsOver (inner f.path folders)
        → IsOver (visit_file api excluded partition_of inner root_dir f folders)
    unfolding visit_file
    visit_file-IsOver f folders h k = elim (Option-cases (get (api.dirname root_dir) folders)) [
      | inr (previous, e) ↦ rw (visit_file, e) (returns-IsOver _)
      | inl e ↦ elim (Bool-cases (is_partition f.name)) [
        | inl b ↦
            rw (visit_file, e, b)
              (bind-IsOver (partition_of f.path) _ (h b) (λ found p. returns-IsOver _))
        | inr b ↦ elim (Option-cases (assess_path f)) [
          | inl n ↦ rw (visit_file, e, b, n) k
          | inr (t, n) ↦ rw (visit_file, e, b, n) (returns-IsOver _)
        ]
      ]
    ]

    visit_files-IsOver :
        (files : List FileInfo) (folders : Folders)
        → ((f : FileInfo)
            → Memᴰ f files
            → (f.path == root_dir) ≡ false
            → (is_partition f.name ≡ true → IsOver (partition_of f.path))
              × ((d : Folders) → IsOver (inner f.path d)))
        → IsOver (visit_files api excluded partition_of inner root_dir files folders)
    unfolding visit_files
    visit_files-IsOver [] folders h = returns-IsOver folders
    visit_files-IsOver (f ∷ files) folders h =
        elim (Bool-cases (is_irrelevant excluded f.name || (f.path == root_dir))) [
          | inl b ↦
              rw (visit_files, b) (visit_files-IsOver files folders (λ g m. h g (Memᴰ.tail m)))
          | inr b ↦
              let (p, i) = h f (Memᴰ.head refl) (ground (b, arith)) in
              rw (visit_files, b)
                (bind-IsOver (visit_file api excluded partition_of inner root_dir f folders) _
                  (visit_file-IsOver f folders p (i folders))
                  (λ d e. visit_files-IsOver files d (λ g m. h g (Memᴰ.tail m))))
        ]

  module _ (rank : String → ℕ) (tree : IsTree api rank) where
    find_partition_file_format_ends :
        (fuel : ℕ) (dir : String)
        → rank dir < fuel
        → IsOver (find_partition_file_format api excluded fuel dir)
    unfolding find_partition_file_format
    find_partition_file_format_ends zero dir h = absurd (omega (arith, h))
    find_partition_file_format_ends (suc fuel) dir h = listed-IsOver (api.ls dir) _ (λ files e.
        scan_partition-IsOver (find_partition_file_format api excluded fuel) files (λ f m p.
          find_partition_file_format_ends fuel f.path
            (omega (arith, h, tree.falls dir files f e m (tree.not_itself dir files f e m p)))))

    -- Where a rank falls along the tree of directories, a fuel above the rank of the mount point is
    -- enough: the search for tables below it ends, with the folders or with the error of a listing.
    pub find_delta_log_folders_ends :
        (fuel : ℕ) (dir : String) (folders : Folders)
        → rank dir < fuel
        → find_delta_log_folders api excluded fuel dir folders ≢ out_of_fuel
    unfolding find_delta_log_folders
    find_delta_log_folders_ends zero dir folders h = absurd (omega (arith, h))
    find_delta_log_folders_ends (suc fuel) dir folders h = listed-IsOver (api.ls dir) _ (λ files e.
        visit_files-IsOver (find_partition_file_format api excluded fuel)
          (find_delta_log_folders api excluded fuel) dir files folders
          (λ f m n.
            let lower : rank f.path < fuel = omega (arith, h, tree.falls dir files f e m n) in
            (
              λ p. find_partition_file_format_ends fuel f.path lower,
              λ d. find_delta_log_folders_ends fuel f.path d lower,
            )))

  scan_partition-single :
      (inner : String → Outcome (Option TableInMount)) (f : FileInfo)
      → is_partition f.name ≡ true
      → assess_path f ≡ none
      → scan_partition inner (f ∷ []) ≡ inner f.path
  unfolding scan_partition
  scan_partition-single inner f p n = rw (scan_partition, n, p) refl

  -- A file whose listing is itself, with a "=" in its name and none of the known endings, is searched
  -- as a partition again and again: no fuel is enough.
  pub find_partition_file_format_diverges :
      (f : FileInfo)
      → api.ls f.path ≡ ok (f ∷ [])
      → is_partition f.name ≡ true
      → assess_path f ≡ none
      → (fuel : ℕ) → find_partition_file_format api excluded fuel f.path ≡ out_of_fuel
  unfolding find_partition_file_format scan_partition
  find_partition_file_format_diverges f e p n zero = refl
  find_partition_file_format_diverges f e p n (suc fuel) = rw e (
      scan_partition-single (find_partition_file_format api excluded fuel) f p n
      ∙ find_partition_file_format_diverges f e p n fuel)
