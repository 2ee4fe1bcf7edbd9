-- ===== src/Controller/User/Groups/Sync.antt =====
-- `syncGroupMemberships` of pocketiduser_controller.go: it sends exactly when it must, and what it
-- must.
use Prim.Native.String.{◌++◌ as ◌<>◌}
use pocketid_operator.Base.{
  ◌≡◌, refl, sym, ◌∙◌, ◌↔◌, ◌⊎◌, inl, inr, String, true, false, string_eq, List, [], ◌∷◌, map,
  arith, Bool-cases,
}
use pocketid_operator.Base.Lists.{contains}
use pocketid_operator.Base.Lists.Members.{all_in-both_iff}
use pocketid_operator.Error.{Result, ok}
use pocketid_operator.Api.Meta.{LocalObjectReference}
use pocketid_operator.Api.User.{User}
use pocketid_operator.PocketId.Types.{User as Account}
use pocketid_operator.PocketId.Request.{Client, Request, method_put, user_group_ids_body}
use pocketid_operator.PocketId.Client.{set_user_groups, do_request, request, user_path}
use pocketid_operator.World.{Env, History, send, range_keys, sent, ◌>>=◌}
use pocketid_operator.World.Keeps.{Keeps, keeps_rules}
use pocketid_operator.Controller.User.Groups.{
  current_group_ids, memberships_differ, desired_group_ids, write_memberships,
  sync_group_memberships,
}
use pocketid_operator.Controller.User.Groups.Wanted.{
  IsWanted, desired-contains_iff, id_of, contains-collect_ids,
}
use pocketid_operator.World.Effects.{effects, effects_reads}

-- `range` over a map meets each key of the map and nothing else.
pub record RangesKeys (env : Env) : Type 0 where
  pub contains-range :
      (h : History) (ks : List String) (k : String) → contains (env.range h ks) k ≡ contains ks k

-- The account is in exactly the groups that are wanted.
abbrev pub IsInGroups : Env → History → User → Account → Type 0
IsInGroups env h u a =
    (id : String)
    → (contains (map id_of a.user_groups) id ≡ true)
      ↔ IsWanted env u.namespace id u.spec.user_group_refs h

abbrev pub set_groups_request : Client → Account → List String → Request
set_groups_request c a ids =
    request c method_put (user_path a.id <> "/user-groups") (user_group_ids_body ids)

-- A run that leaves the groups alone.
pub record LeavesGroups (h : History) (r : Result (Unit {0})) (h' : History) : Type 0 where
  pub succeeds : r ≡ ok tt
  pub no_effect : effects h' ≡ effects h

-- A run whose effect is one request that puts the account in exactly the wanted groups.
pub record SetsGroups (env : Env) (c : Client) (h : History) (u : User) (a : Account) (h' : History)
    : Type 0 where
  pub ids : List String
  pub wanted :
      (id : String)
      → (contains ids id ≡ true) ↔ IsWanted env u.namespace id u.spec.user_group_refs h
  pub one_request : effects h' ≡ sent (set_groups_request c a ids) ∷ effects h

module _ (env : Env) (c : Client) (h : History) (u : User) (a : Account) where
  Keeps-desired :
      (es : History) (refs : List LocalObjectReference) (ns : String) (ids : List String)
      → Keeps (λ h'. effects h' ≡ es) (desired_group_ids env refs ns ids)
  unfolding desired_group_ids
  Keeps-desired es [] ns ids = search keeps_rules
  Keeps-desired es (ref ∷ refs) ns ids =
      let ih = Keeps-desired es refs ns in search (keeps_rules, effects_reads, ih)

  abbrev desired : List String
  desired = (desired_group_ids env u.spec.user_group_refs u.namespace [] h).0

  abbrev after_reads : History
  after_reads = (desired_group_ids env u.spec.user_group_refs u.namespace [] h).1

  effects-after_reads : effects after_reads ≡ effects h
  effects-after_reads = (Keeps-desired (effects h) u.spec.user_group_refs u.namespace []).at h refl

  contains-current :
      (id : String) → contains (current_group_ids a) id ≡ contains (map id_of a.user_groups) id
  contains-current id = ground (arith, contains-collect_ids a.user_groups [] id)

  IsInGroups-of-same :
      ((id : String) → contains desired id ≡ contains (current_group_ids a) id)
      → IsInGroups env h u a
  IsInGroups-of-same same id =
      let w = desired-contains_iff env u.namespace id u.spec.user_group_refs h in
      (
        λ p. w.0 (same id ∙ contains-current id ∙ p),
        λ q. sym (contains-current id) ∙ sym (same id) ∙ w.1 q,
      )

  same_of-in_groups :
      IsInGroups env h u a → (id : String) → contains desired id ≡ contains (current_group_ids a) id
  same_of-in_groups there id =
      let w = desired-contains_iff env u.namespace id u.spec.user_group_refs h in
      let to : contains desired id ≡ true → contains (map id_of a.user_groups) id ≡ true =
        λ p. (there id).1 (w.0 p) in
      let from : contains (map id_of a.user_groups) id ≡ true → contains desired id ≡ true =
        λ p. w.1 ((there id).0 p) in
      ground (arith, contains-current id)

  sends_groups :
      RangesKeys env
      → memberships_differ desired (current_group_ids a) ≡ true
      → SetsGroups env c h u a (write_memberships env c a desired after_reads).1
  unfolding write_memberships range_keys set_user_groups do_request send ◌>>=◌
  sends_groups ranges differ = record {
    ids = env.range after_reads desired;
    wanted = λ id.
        let w = desired-contains_iff env u.namespace id u.spec.user_group_refs h in
        let r = ranges.contains-range after_reads desired id in
        (λ p. w.0 (sym r ∙ p), λ q. r ∙ w.1 q);
    one_request = rw (differ, effects-after_reads);
  }

  leaves_groups :
      memberships_differ desired (current_group_ids a) ≡ false
      → LeavesGroups h
          (write_memberships env c a desired after_reads).0
          (write_memberships env c a desired after_reads).1
  unfolding write_memberships
  leaves_groups same = record { succeeds = rw same; no_effect = rw (same, effects-after_reads) }

  -- Of an account that is in the wanted groups the groups are left alone.
  pub LeavesGroups-of-IsInGroups :
      IsInGroups env h u a
      → LeavesGroups h (sync_group_memberships env c u a h).0 (sync_group_memberships env c u a h).1
  unfolding sync_group_memberships ◌>>=◌
  LeavesGroups-of-IsInGroups there =
      let both = all_in-both_iff desired (current_group_ids a) in
      leaves_groups (ground (arith, both.1 (same_of-in_groups there)))

  -- Where `range` meets the keys of a map and nothing else, the synchronisation of the groups of an
  -- account either finds it in exactly the groups that the resource refers to (those that can be
  -- read and have an id), and then succeeds with no effect; or it does not, and then its effects
  -- are one request to PocketID, to put the account in exactly those groups.
  pub sync_group_memberships-either :
      RangesKeys env
      → IsInGroups env h u a
          × LeavesGroups h
              (sync_group_memberships env c u a h).0
              (sync_group_memberships env c u a h).1
        ⊎ (¬ IsInGroups env h u a) × SetsGroups env c h u a (sync_group_memberships env c u a h).1
  unfolding sync_group_memberships ◌>>=◌
  sync_group_memberships-either ranges =
      let both = all_in-both_iff desired (current_group_ids a) in
      elim (Bool-cases (memberships_differ desired (current_group_ids a))) [
        | inl differ ↦ inr (
          λ there. absurd (ground (arith, both.1 (same_of-in_groups there))),
          sends_groups ranges differ,
        )
        | inr same ↦ inl (IsInGroups-of-same (both.0 (ground arith)), leaves_groups same)
      ]
