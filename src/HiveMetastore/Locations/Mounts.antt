-- ===== src/HiveMetastore/Locations/Mounts.antt =====
-- hive_metastore/locations.py: the mount points of a workspace, without duplicates.
use mathlib.Core.List.{Memᴰ}
use mathlib.Core.List.Memᴰ as M
use databricks_ucx.Prelude.{
  String_eq, ◌==◌, Bool, true, ◌&&◌, List, [], ◌∷◌, map, if◌then◌else◌, mem, Eq, ◌≡◌, ◌↔◌, arith,
  inl, inr, Bool-cases, eq_iff, ap, mem→Memᴰ, Memᴰ→mem, ◌⊎◌,
}
use databricks_ucx.Text.{lower, contains}
use databricks_ucx.HiveMetastore.Grants.Cluster.{Mount}

-- Mount is a dataclass: its equality is that of its fields.
abbrev pub mount_beq : Mount → Mount → Bool
mount_beq a b = (a.name == b.name) && (a.source == b.source)

pub mount_beq_iff : (a b : Mount) → (mount_beq a b ≡ true) ↔ (a ≡ b)
mount_beq_iff a b = ground (arith, eq_iff a.name b.name, eq_iff a.source b.source)

instance abbrev pub Mount_eq : Eq Mount
Mount_eq = record { beq = mount_beq; beq_iff = mount_beq_iff }

-- What a mount is compared as: the mounts of volumes are one.
unfoldable pub comparable : Mount → Mount
unfolding lower
comparable m =
    if contains (lower m.source) "dbfsreserved"
    then record { name = "/Volume"; source = m.source }
    else m

-- The loop of _deduplicate_mounts.
unfoldable pub deduplicate : List Mount → List Mount → List Mount
unfolding comparable mem
deduplicate seen [] = []
deduplicate seen (m ∷ mounts) =
    let later = deduplicate (comparable m ∷ seen) mounts in
    let without = deduplicate seen mounts in if mem (comparable m) seen then without else m ∷ later

-- _deduplicate_mounts
unfoldable pub deduplicate_mounts : List Mount → List Mount
unfolding deduplicate
deduplicate_mounts mounts = deduplicate [] mounts

-- No two mounts are compared as the same, nor is one compared as one that was seen.
abbrev pub IsDistinct : List Mount → List Mount → Type 0
IsDistinct seen [] = Unit
IsDistinct seen (m ∷ mounts) = ¬ Memᴰ (comparable m) seen × IsDistinct (comparable m ∷ seen) mounts

deduplicate-IsDistinct : (seen mounts : List Mount) → IsDistinct seen (deduplicate seen mounts)
unfolding deduplicate
deduplicate-IsDistinct seen [] = tt
deduplicate-IsDistinct seen (m ∷ mounts) = elim (Bool-cases (mem (comparable m) seen)) [
  | inl b ↦ rw (deduplicate, b) (deduplicate-IsDistinct seen mounts)
  | inr b ↦
      rw (deduplicate, b)
        (λ n. ground (Memᴰ→mem n, b, arith), deduplicate-IsDistinct (comparable m ∷ seen) mounts)
]

deduplicate_sound :
    (seen mounts : List Mount) (m : Mount) → Memᴰ m (deduplicate seen mounts) → Memᴰ m mounts
unfolding deduplicate
deduplicate_sound seen [] m n = n
deduplicate_sound seen (x ∷ mounts) m n = elim (Bool-cases (mem (comparable x) seen)) [
  | inl b ↦ Memᴰ.tail (deduplicate_sound seen mounts m (rw (deduplicate, b) at n))
  | inr b ↦ elim (M.cases_cons (rw (deduplicate, b) at n)) [
    | inl e ↦ Memᴰ.head e
    | inr k ↦ Memᴰ.tail (deduplicate_sound (comparable x ∷ seen) mounts m k)
  ]
]

-- A mount is kept or compared as one that was seen.
abbrev IsCovered : List Mount → List Mount → Mount → Type 0
IsCovered seen kept m = Memᴰ (comparable m) seen ⊎ Memᴰ (comparable m) (map comparable kept)

deduplicate_complete :
    (seen mounts : List Mount) (m : Mount)
    → Memᴰ m mounts
    → IsCovered seen (deduplicate seen mounts) m
unfolding deduplicate
deduplicate_complete seen [] m n = elim n [ ]
deduplicate_complete seen (x ∷ mounts) m n = elim (Bool-cases (mem (comparable x) seen)) [
  | inl b ↦ elim (M.cases_cons n) [
    | inl e ↦ inl (M.cast (ap comparable e) (mem→Memᴰ (comparable x) seen b))
    | inr k ↦ rw (deduplicate, b) (deduplicate_complete seen mounts m k)
  ]
  | inr b ↦ elim (M.cases_cons n) [
    | inl e ↦ rw (deduplicate, b) (inr (Memᴰ.head (ap comparable e)))
    | inr k ↦ elim (deduplicate_complete (comparable x ∷ seen) mounts m k) [
      | inl i ↦ elim (M.cases_cons i) [
        | inl e ↦ rw (deduplicate, b) (inr (Memᴰ.head e))
        | inr j ↦ inl j
      ]
      | inr i ↦ rw (deduplicate, b) (inr (Memᴰ.tail i))
    ]
  ]
]

pub deduplicate_mounts_sound :
    (mounts : List Mount)
    → IsDistinct [] (deduplicate_mounts mounts)
      × ((m : Mount) → Memᴰ m (deduplicate_mounts mounts) → Memᴰ m mounts)
      × ((m : Mount)
          → Memᴰ m mounts
          → Memᴰ (comparable m) (map comparable (deduplicate_mounts mounts)))
unfolding deduplicate_mounts
deduplicate_mounts_sound mounts = (
  deduplicate-IsDistinct [] mounts,
  deduplicate_sound [] mounts,
  λ m n. elim (deduplicate_complete [] mounts m n) [ inl i ↦ elim i [ ] | inr i ↦ i ],
)
