-- ===== src/Controller/Permission/Granted.antt =====
-- helpers.go and the opening of three reconcilers: which client of PocketID a reference gives.
use pocketid_operator.Base.{
  ◌≡◌, ◌↔◌, refl, sym, String, Bool-cases, inl, inr, true, false, is_empty, if◌then◌else◌, ◌∷◌,
}
use pocketid_operator.Base.Dict.{get_or_empty}
use pocketid_operator.Error.{Error, ok, Result-cases}
use pocketid_operator.Api.Meta.{CrossNamespaceObjectReference}
use pocketid_operator.Api.Core.{Secret}
use pocketid_operator.Api.Instance.{Instance}
use pocketid_operator.PocketId.Request.{Client, new_client}
use pocketid_operator.World.{Env, History, got, instance_kind, secret_kind, fetch, on_error, ◌>>=◌}
use pocketid_operator.Controller.References.{
  Verdict, allowed, denied, undecided, validate_cross_namespace_reference,
  resolve_instance_reference, instance_key,
}
use pocketid_operator.Controller.References.Rules.{MayReference, validate-MayReference_iff}
use pocketid_operator.Controller.Access.{
  Access, refused, granted, access, admit, make_client, create_api_client_with_dev_default,
  get_secret, client_with_key, base_url, pocketid_internal_url, api_key_secret_name,
}

-- Where the instance says that it is reached, or else its service.
pub data ServesAt (i : Instance) : String → Type 0 where
  stated : is_empty i.status.internal_url ≡ false → ServesAt i i.status.internal_url
  by_name :
      is_empty i.status.internal_url ≡ true → ServesAt i (pocketid_internal_url i.name i.namespace)

-- Outside a cluster, the address for development comes first: that of the environment, or else the
-- default one.
pub data ReachedAt (env : Env) (i : Instance) (default_dev_url : String) : String → Type 0 where
  in_cluster :
      (url : String)
      → is_empty (env.getenv "KUBERNETES_SERVICE_HOST") ≡ false
      → ServesAt i url
      → ReachedAt env i default_dev_url url
  developed :
      is_empty (env.getenv "KUBERNETES_SERVICE_HOST") ≡ true
      → is_empty (env.getenv "POCKETID_DEV_API_URL") ≡ false
      → ReachedAt env i default_dev_url (env.getenv "POCKETID_DEV_API_URL")
  by_default :
      is_empty (env.getenv "KUBERNETES_SERVICE_HOST") ≡ true
      → is_empty (env.getenv "POCKETID_DEV_API_URL") ≡ true
      → is_empty default_dev_url ≡ false
      → ReachedAt env i default_dev_url default_dev_url
  outside :
      (url : String)
      → is_empty (env.getenv "KUBERNETES_SERVICE_HOST") ≡ true
      → is_empty (env.getenv "POCKETID_DEV_API_URL") ≡ true
      → is_empty default_dev_url ≡ true
      → ServesAt i url
      → ReachedAt env i default_dev_url url

module _ (env : Env) (i : Instance) (dev : String) where
  abbrev service_url : String
  service_url =
      if is_empty i.status.internal_url
      then pocketid_internal_url i.name i.namespace
      else i.status.internal_url

  service_url-ServesAt : ServesAt i service_url
  service_url-ServesAt = elim (Bool-cases (is_empty i.status.internal_url)) [
    | inl unstated ↦ simp unstated (by_name unstated)
    | inr there ↦ simp there (stated there)
  ]

  base_url-ReachedAt : ReachedAt env i dev (base_url env i dev)
  base_url-ReachedAt = elim (Bool-cases (is_empty (env.getenv "KUBERNETES_SERVICE_HOST"))) [
    | inr cluster ↦ simp cluster (in_cluster service_url cluster service_url-ServesAt)
    | inl bare ↦ elim (Bool-cases (is_empty (env.getenv "POCKETID_DEV_API_URL"))) [
      | inr given ↦ simp (bare, given) (developed bare given)
      | inl unset ↦ elim (Bool-cases (is_empty dev)) [
        | inr default ↦ simp (bare, unset, default) (by_default bare unset default)
        | inl none_at_all ↦
            simp (bare, unset, none_at_all)
              (outside service_url bare unset none_at_all service_url-ServesAt)
      ]
    ]
  ]

  service_url_of-ServesAt : (url : String) → ServesAt i url → service_url ≡ url
  service_url_of-ServesAt _ (stated there) = rw there refl
  service_url_of-ServesAt _ (by_name unstated) = rw unstated refl

  base_url_of-ReachedAt : (url : String) → ReachedAt env i dev url → base_url env i dev ≡ url
  base_url_of-ReachedAt _ (in_cluster url cluster at) = rw cluster (service_url_of-ServesAt url at)
  base_url_of-ReachedAt _ (developed bare given) = rw (bare, given) refl
  base_url_of-ReachedAt _ (by_default bare unset default) = rw (bare, unset, default) refl
  base_url_of-ReachedAt _ (outside url bare unset none_at_all at) =
      rw (bare, unset, none_at_all) (service_url_of-ServesAt url at)

module _ (env : Env) (ref : CrossNamespaceObjectReference) (ns dev : String) (h : History) where
  abbrev after_instance : History
  after_instance = got instance_kind (instance_key ref ns) ∷ h

  abbrev after_check : Instance → History
  after_check i = (validate_cross_namespace_reference env i ns after_instance).1

  -- The reference names an instance that is there and may be referenced, whose key can be read from
  -- its secret; the client has that key and the address of that instance.
  pub record Opens (i : Instance) (c : Client) : Type 0 where
    pub found : env.get instance_kind h (instance_key ref ns) ≡ ok i
    pub permitted : MayReference env after_instance i ns
    pub secret : Secret
    pub stored :
        env.get secret_kind
          (after_check i)
          (record { name = api_key_secret_name i; namespace = i.namespace })
        ≡ ok secret
    pub has_key : is_empty (get_or_empty "STATIC_API_KEY" secret.contents) ≡ false
    pub key : c.api_key ≡ get_or_empty "STATIC_API_KEY" secret.contents
    pub address : ReachedAt env i dev c.base_url

  data Opened : Access → Type 0 where
    closed : (reason : String) (e : Error) → Opened (refused reason e)
    opened : (i : Instance) (c : Client) → Opens i c → Opened (granted i c)

  Opened-make_client :
      (i : Instance)
      → env.get instance_kind h (instance_key ref ns) ≡ ok i
      → MayReference env after_instance i ns
      → Opened (make_client env i dev (after_check i)).0
  unfolding make_client create_api_client_with_dev_default get_secret client_with_key new_client
      fetch ◌>>=◌
  Opened-make_client i found permitted =
      elim (Result-cases (
        env.get secret_kind (after_check i)
          (record { name = api_key_secret_name i; namespace = i.namespace }))) [
            | inl (e, p) ↦ rw (p, on_error) (closed _ _)
            | inr (secret, p) ↦
                elim (Bool-cases (is_empty (get_or_empty "STATIC_API_KEY" secret.contents))) [
                  | inl missing ↦ rw (p, on_error, missing) (closed _ _)
                  | inr there ↦
                      rw (p, on_error, there)
                        (opened i _ (record {
                          found = found;
                          permitted = permitted;
                          secret = secret;
                          stored = p;
                          has_key = there;
                          key = refl;
                          address = base_url-ReachedAt env i dev;
                        }))
                ]
          ]

  Opened-admit :
      (i : Instance) (v : Verdict)
      → env.get instance_kind h (instance_key ref ns) ≡ ok i
      → (validate_cross_namespace_reference env i ns after_instance).0 ≡ v
      → Opened (admit env i dev v (after_check i)).0
  unfolding admit
  Opened-admit i (denied reason) found p = closed _ _
  Opened-admit i (undecided e) found p = closed _ _
  Opened-admit i allowed found p =
      Opened-make_client i found ((validate-MayReference_iff env i ns after_instance).0 p)

  Opened-access : Opened (access env ref ns dev h).0
  unfolding access resolve_instance_reference fetch ◌>>=◌
  Opened-access = elim (Result-cases (env.get instance_kind h (instance_key ref ns))) [
    | inl (e, p) ↦ rw (p, on_error) (closed _ _)
    | inr (i, p) ↦ rw (p, on_error) (Opened-admit i _ p refl)
  ]

  Opens-of-Opened : (i : Instance) (c : Client) → Opened (granted i c) → Opens i c
  Opens-of-Opened _ _ (opened i c o) = o

  access_of-Opens :
      (i : Instance) (c : Client) → Opens i c → (access env ref ns dev h).0 ≡ granted i c
  unfolding access resolve_instance_reference admit make_client create_api_client_with_dev_default
      get_secret client_with_key new_client fetch ◌>>=◌
  access_of-Opens i c o =
      rw
        (
          o.found,
          on_error,
          (validate-MayReference_iff env i ns after_instance).1 o.permitted,
          admit,
          o.stored,
          o.has_key,
          base_url_of-ReachedAt env i dev c.base_url o.address,
          sym o.key,
        )
        refl

  -- The opening of the three reconcilers grants an instance and a client exactly when the reference
  -- names that instance, it can be read and may be referenced from the namespace, its key is in the
  -- secret that can be read, not empty, and the client has that key and the address of the
  -- instance: in a cluster the one that its status states, or else its service; outside, an address
  -- for development where there is one.
  pub access-granted_iff :
      (i : Instance) (c : Client) → ((access env ref ns dev h).0 ≡ granted i c) ↔ Opens i c
  access-granted_iff i c = (λ p. Opens-of-Opened i c (rw p at Opened-access), access_of-Opens i c)
