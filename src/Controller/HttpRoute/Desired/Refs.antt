-- ===== src/Controller/HttpRoute/Desired/Refs.antt =====
-- `parseAllowedGroupRefs` of httproute_controller.go: the groups that an annotation names.
use pocketid_operator.Base.{
  ◌≡◌, refl, String, true, false, not, ◌&&◌, string_eq, eq_iff, eq_refl, is_empty, List, [], ◌∷◌,
  map, arith, Bool-cases, inl, inr,
}
use pocketid_operator.Base.Lists.{contains, is_nodup}
use pocketid_operator.Base.Text.{trim_space, split}
use pocketid_operator.Api.Meta.{LocalObjectReference}
use pocketid_operator.Controller.HttpRoute.Desired.{collect_refs, parse_allowed_group_refs}

abbrev pub ref_name : LocalObjectReference → String
ref_name ref = ref.name

abbrev names : List LocalObjectReference → List String
names = map ref_name

contains-collect_refs :
    (parts seen : List String) (n : String)
    → contains (names (collect_refs parts seen)) n
      ≡ (not (is_empty n) && not (contains seen n) && contains (map trim_space parts) n)
unfolding collect_refs
contains-collect_refs [] seen n = ground arith
contains-collect_refs (part ∷ parts) seen n = ground (
  arith,
  contains-collect_refs parts seen n,
  contains-collect_refs parts (trim_space part ∷ seen) n,
  eq_iff (trim_space part) n,
)

collect_refs-nodup : (parts seen : List String) → is_nodup (names (collect_refs parts seen)) ≡ true
unfolding collect_refs
collect_refs-nodup [] seen = refl
collect_refs-nodup (part ∷ parts) seen = ground (
  arith,
  collect_refs-nodup parts seen,
  collect_refs-nodup parts (trim_space part ∷ seen),
  contains-collect_refs parts (trim_space part ∷ seen) (trim_space part),
  eq_refl (trim_space part),
)

-- The references name each thing that stands between the commas of the annotation, the white space
-- around it removed, and nothing else, but never the empty name; and they name nothing twice.
pub parse_allowed_group_refs-names :
    (text : String)
    → (is_nodup (map ref_name (parse_allowed_group_refs text)) ≡ true)
      × ((n : String)
          → contains (map ref_name (parse_allowed_group_refs text)) n
            ≡ (not (is_empty n) && contains (map trim_space (split b',' text)) n))
unfolding parse_allowed_group_refs split trim_space
parse_allowed_group_refs-names text = elim (Bool-cases (is_empty text)) [
  | inl none ↦ (rw none refl, λ n. rw (none, (eq_iff text "").0 none) (empty n))
  | inr some ↦ (
    rw some (collect_refs-nodup (split b',' text) []),
    λ n. rw some (ground (arith, contains-collect_refs (split b',' text) [] n)),
  )
]
  where
    empty : (n : String) → false ≡ (not (is_empty n) && contains (map trim_space (split b',' "")) n)
    empty n = ground (arith, eq_iff n "", eq_iff "" n)
