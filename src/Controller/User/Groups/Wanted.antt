-- ===== src/Controller/User/Groups/Wanted.antt =====
-- What `syncGroupMemberships` of pocketiduser_controller.go asks PocketID for.
use pocketid_operator.Base.{
  ◌≡◌, refl, sym, ap, ◌∙◌, ◌↔◌, ◌⊎◌, inl, inr, String, true, false, ◌||◌, is_empty, string_eq, ◌==◌,
  eq_iff, List, [], ◌∷◌, map, arith, Bool-cases,
}
use pocketid_operator.Base.Lists.{contains}
use pocketid_operator.Base.Lists.Members.{contains-append}
use pocketid_operator.Error.{Result, ok, err}
use pocketid_operator.Api.Meta.{Key, LocalObjectReference}
use pocketid_operator.Api.UserGroup.{UserGroup}
use pocketid_operator.PocketId.Types.{UserGroupMinimal}
use pocketid_operator.World.{Env, History, fetch, got, user_group_kind, ◌>>=◌}
use pocketid_operator.Controller.User.Groups.{add_id, add_group, collect_ids, desired_group_ids}

abbrev pub id_of : UserGroupMinimal → String
id_of g = g.id

contains-add_id :
    (i : String) (ids : List String) (a : String)
    → contains (add_id i ids) a ≡ (i == a || contains ids a)
contains-add_id i ids a = elim (Bool-cases (contains ids i)) [
  | inl there ↦ elim (Bool-cases (i == a)) [
    | inl same ↦ rw (there, same) (ap (contains ids) (sym ((eq_iff i a).0 same)) ∙ there)
    | inr other ↦ rw (there, other) refl
  ]
  | inr missing ↦ ground (arith, contains-append ids (i ∷ []) a)
]

pub contains-collect_ids :
    (gs : List UserGroupMinimal) (ids : List String) (a : String)
    → contains (collect_ids gs ids) a ≡ (contains (map id_of gs) a || contains ids a)
contains-collect_ids [] ids a = refl
contains-collect_ids (g ∷ gs) ids a =
    ground (arith, contains-collect_ids gs (add_id g.id ids) a, contains-add_id g.id ids a)

module _ (env : Env) (namespace id : String) where
  abbrev group_key : LocalObjectReference → Key
  group_key ref = record { name = ref.name; namespace = namespace }

  -- One of the references names a group that can be read, in its turn, and that has this id.
  pub data IsWanted : List LocalObjectReference → History → Type 0 where
    here :
        {ref : LocalObjectReference} {refs : List LocalObjectReference} {h : History}
        (g : UserGroup)
        → env.get user_group_kind h (group_key ref) ≡ ok g
        → is_empty g.status.group_id ≡ false
        → g.status.group_id ≡ id
        → IsWanted (ref ∷ refs) h
    there :
        {ref : LocalObjectReference} {refs : List LocalObjectReference} {h : History}
        → IsWanted refs (got user_group_kind (group_key ref) ∷ h)
        → IsWanted (ref ∷ refs) h

module _ (env : Env) (namespace id : String) where
  -- What one answer adds to the ids.
  contains-add_group :
      (g : UserGroup) (ids : List String)
      → is_empty g.status.group_id ≡ false
      → contains (add_group (ok g) ids) id ≡ (g.status.group_id == id || contains ids id)
  contains-add_group g ids named = rw named (contains-add_id g.status.group_id ids id)

  found_or_IsWanted :
      (ref : LocalObjectReference) (refs : List LocalObjectReference) (ids : List String)
      (h : History) (answer : Result UserGroup)
      → env.get user_group_kind h (group_key env namespace id ref) ≡ answer
      → contains (add_group answer ids) id ≡ true
      → (contains ids id ≡ true) ⊎ IsWanted env namespace id (ref ∷ refs) h
  found_or_IsWanted ref refs ids h (err e) a p = inl p
  found_or_IsWanted ref refs ids h (ok g) a p = elim (Bool-cases (is_empty g.status.group_id)) [
    | inl none ↦ inl (ground arith)
    | inr named ↦ elim (Bool-cases (g.status.group_id == id)) [
      | inl same ↦ inr (here g a named ((eq_iff g.status.group_id id).0 same))
      | inr other ↦ inl (ground (arith, contains-add_group g ids named))
    ]
  ]

  keeps_found :
      (answer : Result UserGroup) (ids : List String)
      → contains ids id ≡ true
      → contains (add_group answer ids) id ≡ true
  keeps_found (err e) ids p = p
  keeps_found (ok g) ids p = elim (Bool-cases (is_empty g.status.group_id)) [
    | inl none ↦ rw none p
    | inr named ↦ ground (arith, contains-add_group g ids named)
  ]

  IsWanted-of-desired :
      (refs : List LocalObjectReference) (ids : List String) (h : History)
      → contains (desired_group_ids env refs namespace ids h).0 id ≡ true
      → (contains ids id ≡ true) ⊎ IsWanted env namespace id refs h
  unfolding desired_group_ids fetch ◌>>=◌
  IsWanted-of-desired [] ids h p = inl p
  IsWanted-of-desired (ref ∷ refs) ids h p =
      let answer = env.get user_group_kind h (group_key env namespace id ref) in
      elim (IsWanted-of-desired refs (add_group answer ids)
        (got user_group_kind (group_key env namespace id ref) ∷ h) p) [
          | inl q ↦ found_or_IsWanted ref refs ids h answer refl q
          | inr w ↦ inr (there w)
        ]

  desired_of-found :
      (refs : List LocalObjectReference) (ids : List String) (h : History)
      → contains ids id ≡ true
      → contains (desired_group_ids env refs namespace ids h).0 id ≡ true
  unfolding desired_group_ids fetch ◌>>=◌
  desired_of-found [] ids h p = p
  desired_of-found (ref ∷ refs) ids h p =
      let answer = env.get user_group_kind h (group_key env namespace id ref) in
      desired_of-found refs (add_group answer ids)
        (got user_group_kind (group_key env namespace id ref) ∷ h) (keeps_found answer ids p)

  desired_of-wanted :
      (refs : List LocalObjectReference) (ids : List String) (h : History)
      → IsWanted env namespace id refs h
      → contains (desired_group_ids env refs namespace ids h).0 id ≡ true
  unfolding desired_group_ids fetch ◌>>=◌
  desired_of-wanted [] ids h w = elim w [ ]
  desired_of-wanted (ref ∷ refs) ids h (there w) =
      let answer = env.get user_group_kind h (group_key env namespace id ref) in
      desired_of-wanted refs (add_group answer ids)
        (got user_group_kind (group_key env namespace id ref) ∷ h) w
  desired_of-wanted (ref ∷ refs) ids h (here g a named same) =
      desired_of-found refs
        (add_group (env.get user_group_kind h (group_key env namespace id ref)) ids) _
        (rw (a, contains-add_group g ids named, (eq_iff g.status.group_id id).1 same))

  pub desired-contains_iff :
      (refs : List LocalObjectReference) (h : History)
      → (contains (desired_group_ids env refs namespace [] h).0 id ≡ true)
        ↔ IsWanted env namespace id refs h
  desired-contains_iff refs h = (
    λ p. elim (IsWanted-of-desired refs [] h p) [ inl q ↦ absurd (cc) | inr w ↦ w ],
    desired_of-wanted refs [] h,
  )
