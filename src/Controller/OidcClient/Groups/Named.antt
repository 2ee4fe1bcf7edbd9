-- ===== src/Controller/OidcClient/Groups/Named.antt =====
-- The groups by their names in `resolveAllowedUserGroups` of pocketidoidcclient_controller.go: of
-- two listed groups with one name the later one counts.
use pocketid_operator.Base.{
  ◌≡◌, refl, sym, ap, ◌∙◌, ◌↔◌, ◌⊎◌, inl, inr, String, false, ◌==◌, string_eq, eq_iff, some, List,
  [], ◌∷◌, map, arith, Bool-cases,
}
use pocketid_operator.Base.Lists.{contains}
use pocketid_operator.Base.Lists.Named.{IsLast, last_here, later}
use pocketid_operator.Base.Dict.{Dict, lookup, insert, lookup-insert}
use pocketid_operator.Api.UserGroup.{UserGroup}
use pocketid_operator.Controller.OidcClient.Groups.{groups_by_name}

abbrev pub group_name : UserGroup → String
group_name g = g.name

lookup-groups_by_name_absent :
    (name : String) (gs : List UserGroup) (m : Dict UserGroup)
    → contains (map group_name gs) name ≡ false
    → lookup name (groups_by_name gs m) ≡ lookup name m
lookup-groups_by_name_absent name [] m p = refl
lookup-groups_by_name_absent name (x ∷ gs) m p =
    lookup-groups_by_name_absent name gs (insert x.name x m) (ground arith)
    ∙ ground (arith, lookup-insert x.name name x m)

lookup-of-IsLast :
    (name : String) (g : UserGroup) (gs : List UserGroup) (m : Dict UserGroup)
    → IsLast group_name name g gs
    → lookup name (groups_by_name gs m) ≡ some g
lookup-of-IsLast name g _ m (last_here {xs = gs} named absent) =
    lookup-groups_by_name_absent name gs (insert g.name g m) absent
    ∙ ground (arith, lookup-insert g.name name g m, (eq_iff g.name name).1 named)
lookup-of-IsLast name g _ m (later {x = x} {xs = gs} last) =
    lookup-of-IsLast name g gs (insert x.name x m) last

IsLast-or_before :
    (name : String) (g : UserGroup) (gs : List UserGroup) (m : Dict UserGroup)
    → lookup name (groups_by_name gs m) ≡ some g
    → IsLast group_name name g gs
      ⊎ (contains (map group_name gs) name ≡ false) × (lookup name m ≡ some g)
IsLast-or_before name g [] m p = inr (refl, p)
IsLast-or_before name g (x ∷ gs) m p = elim (IsLast-or_before name g gs (insert x.name x m) p) [
  | inl last ↦ inl (later last)
  | inr (absent, q) ↦ elim (Bool-cases (x.name == name)) [
    | inl same ↦
        let e : x ≡ g = ground (arith, lookup-insert x.name name x m) in
        inl (rw e (last_here (ap group_name (sym e) ∙ (eq_iff x.name name).0 same) absent))
    | inr other ↦ inr (ground arith, ground (arith, lookup-insert x.name name x m))
  ]
]

pub lookup-groups_by_name_iff :
    (name : String) (g : UserGroup) (gs : List UserGroup)
    → (lookup name (groups_by_name gs []) ≡ some g) ↔ IsLast group_name name g gs
lookup-groups_by_name_iff name g gs = (
  λ p. elim (IsLast-or_before name g gs [] p) [ inl last ↦ last | inr (absent, q) ↦ absurd (cc) ],
  lookup-of-IsLast name g gs [],
)
