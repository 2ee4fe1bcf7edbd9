-- ===== src/Tests/Routes.antt =====
-- The theorems on routes.
use pocketid_operator.Base.{◌≡◌, String, true, not, ◌&&◌, is_empty, string_eq, [], map}
use pocketid_operator.Base.Lists.{contains, is_nodup}
use pocketid_operator.Base.Text.{trim_space, split}
use pocketid_operator.PocketId.Request.{answered, undecodable}
use pocketid_operator.World.{Env}
use pocketid_operator.Api.Core.{HttpRoute}
use pocketid_operator.Api.Meta.{CrossNamespaceObjectReference}
use pocketid_operator.Base.{◌↔◌, ◌∷◌, refl, some}
use pocketid_operator.Controller.HttpRoute.Desired.{parse_allowed_group_refs, redirect_uris}
use pocketid_operator.Controller.HttpRoute.Desired.Uris.{Joins, redirect_uris_iff}
use pocketid_operator.Controller.HttpRoute.Desired.Refs.{ref_name, parse_allowed_group_refs-names}
use pocketid_operator.Controller.HttpRoute.Reconcile.{reconcile_route, choose_instance, chosen}
use pocketid_operator.Controller.HttpRoute.Reconcile.Chosen.{Chosen, choose_instance-chosen_iff}
use pocketid_operator.Controller.HttpRoute.Reconcile.Managed.{RouteEffect, reconcile_route-effect}
use pocketid_operator.Tests.Sample.{route, user, group, oidc_client, environment}

abbrev env : Env
env = environment user group oidc_client (answered 200 "" undecodable)

parse_allowed_group_refs-names_example :
    (is_nodup (map ref_name (parse_allowed_group_refs " a, b,,a")) ≡ true)
    × ((n : String)
        → contains (map ref_name (parse_allowed_group_refs " a, b,,a")) n
          ≡ (not (is_empty n) && contains (map trim_space (split b',' " a, b,,a")) n))
parse_allowed_group_refs-names_example = parse_allowed_group_refs-names " a, b,,a"

reconcile_route-effect_example : RouteEffect env route [] (reconcile_route env route []).1
reconcile_route-effect_example = reconcile_route-effect env route []

abbrev route_with_paths : HttpRoute
route_with_paths = record route {
  metadata = record route.metadata {
    annotations = ("pocketid.tobiash.github.io/redirect-paths", "/a, /b") ∷ [];
  };
}

redirect_uris_iff_example :
    (contains (redirect_uris route_with_paths) "https://app.example.com/b" ≡ true)
    ↔ Joins ("app.example.com" ∷ []) (split b',' "/a, /b") "https://app.example.com/b"
redirect_uris_iff_example = redirect_uris_iff route_with_paths refl "https://app.example.com/b"

abbrev route_with_instance : HttpRoute
route_with_instance = record route {
  metadata = record route.metadata {
    annotations = ("pocketid.tobiash.github.io/instance", "auth/main") ∷ [];
  };
}

abbrev main : CrossNamespaceObjectReference
main = record { name = "main"; namespace = some "auth" }

choose_instance-chosen_iff_example :
    ((choose_instance env route_with_instance []).0 ≡ chosen main)
    ↔ Chosen env [] route_with_instance main
choose_instance-chosen_iff_example = choose_instance-chosen_iff env [] route_with_instance main
