-- ===== src/WorkspaceAccess/Supports/Registry.antt =====
-- workspace_access/manager.py: which support an object type has.
use mathlib.Core.List.{Memᴰ}
use mathlib.Core.List.Memᴰ as M
use databricks_ucx.Prelude.{
  String, String_eq, ◌==◌, List, [], ◌∷◌, some, ◌≡◌, ◌↔◌, ◌⊎◌, sym, ap, ◌∙◌, subst, inl, inr, arith,
  Bool-cases,
}
use databricks_ucx.Dict.{Dict, get, has, put}
use databricks_ucx.Dict.Laws.{get-put}
use databricks_ucx.Exec.{ok, Result-cases}
use databricks_ucx.WorkspaceAccess.Supports.Manager.{
  AclSupport, register, register_all, object_type_support,
}

module _ {T : Type 0} where
  -- A type that a support names.
  abbrev pub IsNamed : String → AclSupport T → List (AclSupport T) → Type 0
  IsNamed t s supports = Memᴰ s supports × Memᴰ t s.object_types

  register-get :
      (s : AclSupport T) (types : List String) (d : Dict String (AclSupport T))
      {d' : Dict String (AclSupport T)} (t : String) (v : AclSupport T)
      → register s types d ≡ ok d'
      → get t d' ≡ some v
      → (get t d ≡ some v) ⊎ ((v ≡ s) × Memᴰ t types)
  unfolding register
  register-get s [] d {d'} t v h g =
      let same : d' ≡ d = ground (sym h, arith) in inl (subst (λ x. get t x ≡ some v) same g)
  register-get s (u ∷ types) d t v h g = elim (Bool-cases (has u d)) [
    | inl b ↦ absurd (ground (rw (register, b) at h, arith))
    | inr b ↦ elim (register-get s types (put u s d) t v (rw (register, b) at h) g) [
      | inr (e, m) ↦ inr (e, Memᴰ.tail m)
      | inl e ↦ elim (Bool-cases (u == t)) [
        | inl same ↦
            let found : some s ≡ some v = ground (get-put u t s d, e, same, arith) in
            inr (ground (found, arith), Memᴰ.head (sym ((String_eq.beq_iff u t).0 same)))
        | inr other ↦ inl (ground (get-put u t s d, e, other, arith))
      ]
    ]
  ]

  register-keeps :
      (s : AclSupport T) (types : List String) (d : Dict String (AclSupport T))
      {d' : Dict String (AclSupport T)} (t : String) (v : AclSupport T)
      → register s types d ≡ ok d'
      → get t d ≡ some v
      → get t d' ≡ some v
  unfolding register
  register-keeps s [] d {d'} t v h g = ground (h, g, arith)
  register-keeps s (u ∷ types) d t v h g = elim (Bool-cases (has u d)) [
    | inl b ↦ absurd (ground (rw (register, b) at h, arith))
    | inr b ↦ elim (Bool-cases (u == t)) [
      | inl same ↦
          let eq : u ≡ t = (String_eq.beq_iff u t).0 same in
          absurd (ground (b, ap (λ x. has x d) eq, g, arith))
      | inr other ↦
          register-keeps s types (put u s d) t v (rw (register, b) at h)
            (ground (get-put u t s d, g, other, arith))
    ]
  ]

  register-adds :
      (s : AclSupport T) (types : List String) (d : Dict String (AclSupport T))
      {d' : Dict String (AclSupport T)} (t : String)
      → register s types d ≡ ok d'
      → Memᴰ t types
      → get t d' ≡ some s
  unfolding register
  register-adds s [] d t h m = elim m [ ]
  register-adds s (u ∷ types) d t h m = elim (Bool-cases (has u d)) [
    | inl b ↦ absurd (ground (rw (register, b) at h, arith))
    | inr b ↦ elim (M.cases_cons m) [
      | inl e ↦
          register-keeps s types (put u s d) t s (rw (register, b) at h)
            (ground (get-put u t s d, (String_eq.beq_iff u t).1 (sym e), arith))
      | inr n ↦ register-adds s types (put u s d) t (rw (register, b) at h) n
    ]
  ]

  -- What the dictionary has after the supports: what it had before, and the types that they name.
  register_all-get :
      (supports : List (AclSupport T)) (d : Dict String (AclSupport T))
      {d' : Dict String (AclSupport T)} (t : String) (v : AclSupport T)
      → register_all supports d ≡ ok d'
      → get t d' ≡ some v
      → (get t d ≡ some v) ⊎ IsNamed t v supports
  unfolding register_all
  register_all-get [] d {d'} t v h g =
      let same : d' ≡ d = ground (sym h, arith) in inl (subst (λ x. get t x ≡ some v) same g)
  register_all-get (s ∷ supports) d t v h g = elim (Result-cases (register s s.object_types d)) [
    | inr (error, e) ↦ absurd (ground (rw (register_all, e) at h, arith))
    | inl (more, e) ↦ elim (register_all-get supports more t v (rw (register_all, e) at h) g) [
      | inr (m, n) ↦ inr (Memᴰ.tail m, n)
      | inl k ↦ elim (register-get s s.object_types d t v e k) [
        | inl before ↦ inl before
        | inr (same, n) ↦
            inr (Memᴰ.head same, subst (λ (x : AclSupport T). Memᴰ t x.object_types) (sym same) n)
      ]
    ]
  ]

  register_all-keeps :
      (supports : List (AclSupport T)) (d : Dict String (AclSupport T))
      {d' : Dict String (AclSupport T)} (t : String) (v : AclSupport T)
      → register_all supports d ≡ ok d'
      → get t d ≡ some v
      → get t d' ≡ some v
  unfolding register_all
  register_all-keeps [] d t v h g = ground (h, g, arith)
  register_all-keeps (s ∷ supports) d t v h g = elim (Result-cases (register s s.object_types d)) [
    | inr (error, e) ↦ absurd (ground (rw (register_all, e) at h, arith))
    | inl (more, e) ↦
        register_all-keeps supports more t v (rw (register_all, e) at h)
          (register-keeps s s.object_types d t v e g)
  ]

  register_all-adds :
      (supports : List (AclSupport T)) (d : Dict String (AclSupport T))
      {d' : Dict String (AclSupport T)} (t : String) (v : AclSupport T)
      → register_all supports d ≡ ok d'
      → IsNamed t v supports
      → get t d' ≡ some v
  unfolding register_all
  register_all-adds [] d t v h (m, n) = elim m [ ]
  register_all-adds (s ∷ supports) d t v h (m, n) =
      elim (Result-cases (register s s.object_types d)) [
        | inr (error, e) ↦ absurd (ground (rw (register_all, e) at h, arith))
        | inl (more, e) ↦ elim (M.cases_cons m) [
          | inr k ↦ register_all-adds supports more t v (rw (register_all, e) at h) (k, n)
          | inl same ↦ register_all-keeps supports more t v (rw (register_all, e) at h) (
              register-adds s s.object_types d t e
                (subst (λ (x : AclSupport T). Memᴰ t x.object_types) same n)
              ∙ ap some (sym same))
        ]
      ]

  -- When the supports are registered without a KeyError, the support that is found for an object type
  -- is the one that names it: a support is found exactly for the types that it names.
  pub object_type_support_iff :
      (supports : List (AclSupport T)) {appliers : Dict String (AclSupport T)} (t : String)
      (s : AclSupport T)
      → object_type_support supports ≡ ok appliers
      → (get t appliers ≡ some s) ↔ IsNamed t s supports
  unfolding object_type_support get
  object_type_support_iff supports t s h = (
    λ g. elim (register_all-get supports [] t s h g) [
      | inl none_before ↦ absurd (ground (none_before, arith))
      | inr named ↦ named
    ],
    λ named. register_all-adds supports [] t s h named,
  )
