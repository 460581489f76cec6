-- ===== src/HiveMetastore/Grants/Eligible.antt =====
-- hive_metastore/grants.py: `AwsACL`, which locations each interactive cluster may use. The dictionary
-- `eligible_locations` is an object in a store, and the result has references to it.
use Prim.Native.Char.{code}
use Prim.Native.String.{[] as empty, ◌∷◌ as cons}
use mathlib.Core.List.Memᴰ as M
use databricks_ucx.Prelude.{
  inl, inr, ℕ, suc, ◌-◌, String, String_eq, ◌==◌, Bool, true, false, ◌&&◌, List, [], ◌∷◌, map,
  Option, none, some, if◌then◌else◌, ltb, nat_eq, ◌≡◌, sym, ap, ◌∙◌, arith, subst, nat_eq_iff, refl,
}
use databricks_ucx.Text.{starts_with, take_chars}
use databricks_ucx.Dict.{Dict, get, put, update}
use databricks_ucx.Dict.Laws.{get→Memᴰ, Memᴰ-put}
use databricks_ucx.Exec.{Result, ok, err, resource_does_not_exist}
use mathlib.Core.List.{Memᴰ}

-- What the program reads of AWSRoleAction.
pub record RoleAction : Type 0 where
  pub role_arn : String
  pub resource_path : String
  pub privilege : String

-- resource_path.find('*'), where it is not -1
unfoldable pub find_star : String → Option ℕ
find_star empty = none
find_star (cons c s) =
    if nat_eq (code c) 42
    then some 0
    else (elim (find_star s) [ none ↦ none | some i ↦ some (suc i) ])

unfoldable pub resource_url : String → String
unfolding find_star take_chars
resource_url path = elim (find_star path) [
  | none ↦ path
  | some i ↦ if ltb 1 i then take_chars (i - 1) path else path
]

-- The inner loop of _get_external_locations, over the mappings.
unfoldable pub match_location :
    String → String → List RoleAction → Dict String String → Dict String String
unfolding resource_url
match_location role url [] matching = matching
match_location role url (m ∷ mappings) matching = match_location role url mappings (
    if starts_with url (resource_url m.resource_path) && (m.role_arn == role)
    then put url m.privilege matching
    else matching)

-- _get_external_locations, on the urls of the locations
unfoldable pub get_external_locations :
    String → List (Option String) → List RoleAction → Dict String String → Dict String String
unfolding match_location
get_external_locations role [] mappings matching = matching
get_external_locations role (none ∷ urls) mappings matching =
    get_external_locations role urls mappings matching
get_external_locations role (some url ∷ urls) mappings matching =
    get_external_locations role urls mappings (match_location role url mappings matching)

abbrev pub is_nil_dict : Dict String String → Bool
is_nil_dict [] = true
is_nil_dict (p ∷ d) = false

-- The dictionaries in memory, by their references.
abbrev pub Store : Type 0
Store = ℕ → Dict String String

abbrev pub write : ℕ → Dict String String → Store → Store
write ref d store other = if nat_eq ref other then d else store other

-- Where `eligible_locations = {}` is made.
abbrev pub new_ref : ℕ
new_ref = 0

abbrev pub nowhere : Store
nowhere ref = []

module _ (urls : List (Option String)) (mappings : List RoleAction) where
  -- eligible_locations.update(...), at its place in the store
  abbrev pub grow : ℕ → String → Store → Store
  grow ref role store =
      write ref (update (store ref) (get_external_locations role urls mappings [])) store

  -- The loop, from the reference of `eligible_locations` and what `cluster_locations` holds:
  -- a reference for each cluster.
  unfoldable pub eligible_loop :
      ℕ → List (String × String) → Store → Dict String ℕ → Store × Dict String ℕ
  unfolding get_external_locations
  eligible_loop ref [] store cluster_locations = (store, cluster_locations)
  eligible_loop ref ((cluster_id, role) ∷ clusters) store cluster_locations =
      eligible_loop ref clusters (grow ref role store) (
        if is_nil_dict (grow ref role store ref)
        then cluster_locations
        else put cluster_id ref cluster_locations)

-- What a caller reads: the contents of the references.
unfoldable pub contents : Store × Dict String ℕ → Dict String (Dict String String)
contents p = map (λ (q : String × ℕ). (q.0, p.0 q.1)) p.1

-- AwsACL.get_eligible_locations_principals, from the clusters' instance profiles, the urls of the
-- external locations and the loaded mapping
unfoldable pub get_eligible_locations :
    List (String × String)
    → List (Option String)
    → Result (List RoleAction)
    → Result (Dict String (Dict String String))
unfolding eligible_loop contents
get_eligible_locations [] urls loaded = ok []
get_eligible_locations (c ∷ clusters) [] loaded = err resource_does_not_exist
get_eligible_locations (c ∷ clusters) (u ∷ urls) loaded = elim loaded [
  | err e ↦ err e
  | ok mappings ↦ elim mappings [
    | [] ↦ err resource_does_not_exist
    | m ∷ more ↦
        ok (contents (eligible_loop (u ∷ urls) (m ∷ more) new_ref (c ∷ clusters) nowhere []))
  ]
]

-- The locations of every cluster's role, those of a later cluster over those of an earlier one.
unfoldable pub all_locations :
    List (Option String)
    → List RoleAction
    → List (String × String)
    → Dict String String
    → Dict String String
all_locations urls mappings [] found = found
all_locations urls mappings (c ∷ clusters) found =
    all_locations urls mappings clusters
      (update found (get_external_locations c.1 urls mappings []))

module _ (urls : List (Option String)) (mappings : List RoleAction) (ref : ℕ) where
  read_grown :
      (role : String) (store : Store)
      → grow urls mappings ref role store ref
        ≡ update (store ref) (get_external_locations role urls mappings [])
  read_grown role store = rw ((nat_eq_iff ref ref).1 refl) refl

  abbrev Only : Dict String ℕ → Type 0
  Only refs = (k : String) (r : ℕ) → Memᴰ {A = String × ℕ} (k, r) refs → r ≡ ref

  Only-put : (k : String) (refs : Dict String ℕ) → Only refs → Only (put k ref refs)
  Only-put k refs only j r m = elim (Memᴰ-put k ref refs m) [
    | inl e ↦ ap (λ (p : String × ℕ). p.1) e
    | inr n ↦ only j r n
  ]

  Only-if :
      (b : Bool) (k : String) (refs : Dict String ℕ)
      → Only refs
      → Only (if b then refs else put k ref refs)
  Only-if true k refs only = only
  Only-if false k refs only = Only-put k refs only

  -- The loop stores its one reference only, and that has the locations of all roles.
  eligible_loop_lem :
      (clusters : List (String × String)) (store : Store) (refs : Dict String ℕ)
      → Only refs
      → ((eligible_loop urls mappings ref clusters store refs).0 ref
          ≡ all_locations urls mappings clusters (store ref))
        × Only (eligible_loop urls mappings ref clusters store refs).1
  unfolding eligible_loop all_locations
  eligible_loop_lem [] store refs only = (refl, only)
  eligible_loop_lem ((cluster_id, role) ∷ clusters) store refs only =
      let (read, kept) =
        eligible_loop_lem clusters (grow urls mappings ref role store) _
          (Only-if (is_nil_dict (grow urls mappings ref role store ref)) cluster_id refs only) in
      (read ∙ ap (all_locations urls mappings clusters) (read_grown role store), kept)

  get-contents :
      (store : Store) (refs : Dict String ℕ) (k : String) (l : Dict String String)
      → Only refs
      → get k (contents (store, refs)) ≡ some l
      → store ref ≡ l
  unfolding contents
  get-contents store refs k l only h =
      let ((j, r), m, e) =
        M.of_map (λ (q : String × ℕ). (q.0, store q.1)) refs (get→Memᴰ k l _ h) in
      ap store (sym (only j r m)) ∙ ap (λ (q : String × Dict String String). q.1) e

-- Where the mapping could be loaded and the eligible locations are found, what a caller reads for any
-- cluster of the result are the locations of the instance profiles of all clusters, not only of its
-- own: the result refers to one dictionary for every cluster, and that has grown by the end.
pub get_eligible_locations_shared :
    (clusters : List (String × String)) (urls : List (Option String)) (mappings : List RoleAction)
    (result : Dict String (Dict String String)) (k : String) (l : Dict String String)
    → get_eligible_locations clusters urls (ok mappings) ≡ ok result
    → get k result ≡ some l
    → l ≡ all_locations urls mappings clusters []
unfolding get_eligible_locations get
get_eligible_locations_shared [] urls mappings result k l h f = absurd (ground arith)
get_eligible_locations_shared (c ∷ clusters) [] mappings result k l h f = absurd (ground arith)
get_eligible_locations_shared (c ∷ clusters) (u ∷ urls) [] result k l h f = absurd (ground arith)
get_eligible_locations_shared (c ∷ clusters) (u ∷ urls) (r ∷ more) result k l h f =
    let p = eligible_loop (u ∷ urls) (r ∷ more) new_ref (c ∷ clusters) nowhere [] in
    let same : contents p ≡ result = ground (h, arith) in
    let (read, only) =
      eligible_loop_lem (u ∷ urls) (r ∷ more) new_ref (c ∷ clusters) nowhere []
        (λ j s m. elim m [ ]) in
    sym (
      get-contents (u ∷ urls) (r ∷ more) new_ref p.0 p.1 k l only
        (subst (λ d. get k d ≡ some l) (sym same) f))
    ∙ read
