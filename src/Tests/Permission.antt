-- ===== src/Tests/Permission.antt =====
-- The theorems on references to instances, on resources of a namespace that may not refer to one.
use pocketid_operator.Base.{◌≡◌, refl, ◌↔◌, some, [], ◌∷◌}
use pocketid_operator.Api.Meta.{Key, named, CrossNamespaceObjectReference}
use pocketid_operator.Api.User.{User}
use pocketid_operator.Api.UserGroup.{UserGroup}
use pocketid_operator.Api.OidcClient.{OidcClient}
use pocketid_operator.Api.Instance.{Instance, from_selector}
use pocketid_operator.PocketId.Request.{Client, answered, undecodable}
use pocketid_operator.World.{Env, History}
use pocketid_operator.Controller.References.{allowed, validate_cross_namespace_reference}
use pocketid_operator.Controller.Access.{granted, access}
use pocketid_operator.Controller.Permission.Granted.{Opens, access-granted_iff}
use pocketid_operator.Controller.References.Expressions.{with_expressions}
use pocketid_operator.Controller.References.Rules.{
  MayReference, same_namespace, all_namespaces, selected_namespace, validate-allowed_iff,
}
use pocketid_operator.Controller.User.Reconcile as UserReconcile
use pocketid_operator.Controller.UserGroup.Reconcile as GroupReconcile
use pocketid_operator.Controller.OidcClient.Reconcile as ClientReconcile
use pocketid_operator.Controller.Permission.User as UserPermission
use pocketid_operator.Controller.Permission.UserGroup as GroupPermission
use pocketid_operator.Controller.Permission.OidcClient as ClientPermission
use pocketid_operator.Controller.Permission.User.{reconcile-user_refused}
use pocketid_operator.Controller.Permission.UserGroup.{reconcile-group_refused}
use pocketid_operator.Controller.Permission.OidcClient.{reconcile-client_refused}
use pocketid_operator.Tests.Sample.{instance, user, group, oidc_client, environment}

abbrev far_reference : CrossNamespaceObjectReference
far_reference = record { name = "main"; namespace = some "auth" }

abbrev far_user : User
far_user = record user {
  metadata = named "jdoe" "other";
  spec = record user.spec { instance_ref = far_reference };
}

abbrev far_group : UserGroup
far_group = record group {
  metadata = named "developers" "other";
  spec = record group.spec { instance_ref = far_reference };
}

abbrev far_client : OidcClient
far_client = record oidc_client {
  metadata = named "my-app" "other";
  spec = record oidc_client.spec { instance_ref = far_reference };
}

abbrev env : Env
env = environment far_user far_group far_client (answered 200 "" undecodable)

abbrev key : Key
key = record { name = "x"; namespace = "other" }

not_allowed : (h : History) → ¬ MayReference env h instance "other"
not_allowed h (same_namespace e) = absurd (cc)
not_allowed h (all_namespaces n s) = absurd (cc (s.configured))
not_allowed h (selected_namespace n s m) = absurd (cc (s.configured))

reconcile-user_refused_example :
    UserPermission.ReportsRefusal [] far_user
      (UserReconcile.reconcile env key []).0
      (UserReconcile.reconcile env key []).1
reconcile-user_refused_example =
    reconcile-user_refused env key [] far_user refl instance refl (not_allowed _)

reconcile-group_refused_example :
    GroupPermission.ReportsRefusal [] far_group
      (GroupReconcile.reconcile env key []).0
      (GroupReconcile.reconcile env key []).1
reconcile-group_refused_example =
    reconcile-group_refused env key [] far_group refl instance refl (not_allowed _)

reconcile-client_refused_example :
    ClientPermission.ReportsRefusal [] far_client
      (ClientReconcile.reconcile env key []).0
      (ClientReconcile.reconcile env key []).1
reconcile-client_refused_example =
    reconcile-client_refused env key [] far_client refl instance refl (not_allowed _)

-- An instance that selects namespaces by their labels.
abbrev selective : Instance
selective = record instance {
  spec = record instance.spec {
    allowed_references = some (record {
      namespaces = some (record {
        from = some from_selector;
        selector = some (record { match_labels = ("team", "a") ∷ []; match_expressions = [] });
      });
    });
  };
}

validate-allowed_iff_example :
    (((validate_cross_namespace_reference env selective "other" []).0 ≡ allowed)
      ↔ MayReference env [] selective "other")
    × (validate_cross_namespace_reference env
          (with_expressions ("tier in (a, b)" ∷ []) selective)
          "other"
          []
        ≡ validate_cross_namespace_reference env selective "other" [])
validate-allowed_iff_example = validate-allowed_iff env selective "other" [] ("tier in (a, b)" ∷ [])

abbrev api : Client
api = record { base_url = "http://main-svc.auth.svc.cluster.local"; api_key = "k" }

access-granted_iff_example :
    ((access env far_reference "auth" "" []).0 ≡ granted instance api)
    ↔ Opens env far_reference "auth" "" [] instance api
access-granted_iff_example = access-granted_iff env far_reference "auth" "" [] instance api
