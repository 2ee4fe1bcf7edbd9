-- ===== src/Controller/HttpRoute/Desired/Uris.antt =====
-- The redirect URIs that httproute_controller.go derives from the hosts and paths of a route.
use pocketid_operator.Base.{
  ◌≡◌, refl, sym, ap, ◌∙◌, ◌↔◌, inl, inr, String, true, false, ◌==◌, string_eq, eq_iff, eq_refl,
  is_empty, List, [], ◌∷◌, arith, Bool-cases,
}
use pocketid_operator.Base.Lists.{contains}
use pocketid_operator.Base.Lists.Members.{contains-append}
use pocketid_operator.Base.Text.{trim_space, split}
use pocketid_operator.Api.Core.{HttpRoute}
use pocketid_operator.Controller.HttpRoute.Desired.{
  annotation, annotation_redirect_paths, uri, uris_of_host, uris_of_hosts, redirect_uris,
}

-- A URI for a host and a path.
pub record Joins (hosts paths : List String) (u : String) : Type 0 where
  pub host : String
  pub has_host : contains hosts host ≡ true
  pub path : String
  pub has_path : contains paths path ≡ true
  pub joined : u ≡ uri host (trim_space path)

Joins-of-host :
    (host : String) (paths : List String) (u : String)
    → contains (uris_of_host host paths) u ≡ true
    → (path : String) × (contains paths path ≡ true) × (u ≡ uri host (trim_space path))
Joins-of-host host [] u p = absurd (cc)
Joins-of-host host (path ∷ paths) u p = elim (Bool-cases (uri host (trim_space path) == u)) [
  | inl same ↦ (path, rw (eq_refl path) refl, sym ((eq_iff (uri host (trim_space path)) u).0 same))
  | inr other ↦
      let (q, there, e) = Joins-of-host host paths u (ground arith) in (q, ground arith, e)
]

host_of-Joins :
    (host path : String) (paths : List String)
    → contains paths path ≡ true
    → contains (uris_of_host host paths) (uri host (trim_space path)) ≡ true
host_of-Joins host path [] p = absurd (cc)
host_of-Joins host path (q ∷ paths) p = elim (Bool-cases (q == path)) [
  | inl same ↦
      let e : uri host (trim_space q) ≡ uri host (trim_space path) =
        ap (λ x. uri host (trim_space x)) ((eq_iff q path).0 same) in
      rw ((eq_iff (uri host (trim_space q)) (uri host (trim_space path))).1 e) refl
  | inr other ↦ ground (arith, host_of-Joins host path paths)
]

Joins-of-hosts :
    (hosts paths : List String) (u : String)
    → contains (uris_of_hosts hosts paths) u ≡ true
    → Joins hosts paths u
Joins-of-hosts [] paths u p = absurd (cc)
Joins-of-hosts (host ∷ hosts) paths u p = elim (Bool-cases (contains (uris_of_host host paths) u)) [
  | inl here ↦
      let (path, there, e) = Joins-of-host host paths u here in
      record {
        host = host;
        has_host = rw (eq_refl host) refl;
        path = path;
        has_path = there;
        joined = e;
      }
  | inr not_here ↦
      let j =
        Joins-of-hosts hosts paths u (
          ground
            (arith, contains-append (uris_of_host host paths) (uris_of_hosts hosts paths) u)) in
      record {
        host = j.host;
        has_host = ground (arith, j.has_host);
        path = j.path;
        has_path = j.has_path;
        joined = j.joined;
      }
]

hosts_of-Joins :
    (hosts paths : List String) (host path : String)
    → contains hosts host ≡ true
    → contains paths path ≡ true
    → contains (uris_of_hosts hosts paths) (uri host (trim_space path)) ≡ true
hosts_of-Joins [] paths host path p q = absurd (cc)
hosts_of-Joins (first ∷ hosts) paths host path p q =
    let u = uri host (trim_space path) in
    let split = contains-append (uris_of_host first paths) (uris_of_hosts hosts paths) u in
    elim (Bool-cases (first == host)) [
      | inl same ↦
          let e : uris_of_host first paths ≡ uris_of_host host paths =
            ap (λ x. uris_of_host x paths) ((eq_iff first host).0 same) in
          split ∙ rw (e, host_of-Joins host path paths q) refl
      | inr other ↦ ground (arith, split, hosts_of-Joins hosts paths host path)
    ]

-- Where a route gives redirect paths, its redirect URIs are exactly those that join one of its
-- hosts and one of the paths between the commas, the white space around the path removed.
pub redirect_uris_iff :
    (route : HttpRoute)
    → is_empty (annotation route annotation_redirect_paths) ≡ false
    → (u : String)
    → (contains (redirect_uris route) u ≡ true)
      ↔ Joins route.hostnames (split b',' (annotation route annotation_redirect_paths)) u
unfolding redirect_uris
redirect_uris_iff route given u =
    let paths = split b',' (annotation route annotation_redirect_paths) in
    rw given (
      Joins-of-hosts route.hostnames paths u,
      λ j. rw j.joined (hosts_of-Joins route.hostnames paths j.host j.path j.has_host j.has_path),
    )
