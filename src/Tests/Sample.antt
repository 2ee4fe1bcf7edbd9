-- ===== src/Tests/Sample.antt =====
-- A cluster with one instance and one resource of each kind, and a server that grants everything.
use pocketid_operator.Base.{
  String, true, false, ◌==◌, string_eq, if◌then◌else◌, Option, none, some, List, [], ◌∷◌, arith,
  eq_refl, is_some,
}
use pocketid_operator.Base.Lists.{contains, replicate}
use pocketid_operator.Base.Dict.{lookup}
use pocketid_operator.Base.Integer.{pos}
use pocketid_operator.Error.{not_found, Result, ok, err}
use pocketid_operator.Api.Meta.{
  ObjectMeta, named, Key, Condition, condition_true, CrossNamespaceObjectReference,
}
use pocketid_operator.Api.Core.{Secret, HttpRoute}
use pocketid_operator.Api.Instance.{Instance}
use pocketid_operator.Api.User.{User}
use pocketid_operator.Api.UserGroup.{UserGroup}
use pocketid_operator.Api.OidcClient.{OidcClient}
use pocketid_operator.PocketId.Request.{Exchange}
use pocketid_operator.World.{
  Machinery, Env, History, Kind, Carrier, instance_kind, user_kind, user_group_kind,
  oidc_client_kind, secret_kind, namespace_kind, config_map_kind, service_kind, stateful_set_kind,
  security_policy_kind, http_route_kind,
}
use pocketid_operator.Controller.Finalizers.{AddsFinalizers}

abbrev without : String → List String → List String
without f [] = []
without f (x ∷ xs) = let rest = without f xs in if x == f then rest else x ∷ rest

abbrev replace_condition : List Condition → Condition → List Condition
replace_condition [] c = c ∷ []
replace_condition (x ∷ xs) c = if x.type == c.type then c ∷ xs else x ∷ replace_condition xs c

abbrev find_condition : List Condition → String → Option Condition
find_condition [] t = none
find_condition (x ∷ xs) t = if x.type == t then some x else find_condition xs t

abbrev drop_condition : List Condition → String → List Condition
drop_condition [] t = []
drop_condition (x ∷ xs) t = let rest = drop_condition xs t in if x.type == t then rest else x ∷ rest

abbrev pub machinery : Machinery
machinery = record {
  contains_finalizer = λ m f. contains m.finalizers f;
  add_finalizer = λ m f. record m { finalizers = f ∷ m.finalizers };
  remove_finalizer = λ m f. record m { finalizers = without f m.finalizers };
  set_controller_reference = λ k owner m. ok m;
  set_status_condition = λ t cs c. replace_condition cs (record c { last_transition_time = t });
  find_status_condition = find_condition;
  is_status_condition_true = λ cs t. elim (find_condition cs t) [
    | none ↦ false
    | some c ↦ elim c.status [ condition_true ↦ true | _ ↦ false ]
  ];
  remove_status_condition = drop_condition;
  selector_text = λ d. elim d [ [] ↦ "" | _ ↦ "labels" ];
  parse_quantity = λ s. ok 1073741824;
  parse_selector = λ s. ok (λ labels. if s == "" then true else is_some (lookup "team" labels));
}

pub machinery-AddsFinalizers : AddsFinalizers machinery
machinery-AddsFinalizers = record { contains-add = λ m f. ground (arith, eq_refl f) }

abbrev pub instance : Instance
instance = record {
  metadata = named "main" "auth";
  spec = record {
    app_url = "https://auth.example.com/";
    image = "";
    replicas = none;
    encryption_key_secret_ref = none;
    static_api_key_secret_ref = none;
    database = record { provider = "sqlite"; postgres_secret_ref = none };
    storage = record { pvc = none; s3 = none };
    smtp = none;
    session_duration = pos 60;
    trust_proxy = true;
    resources = record { limits = []; requests = [] };
    initial_admin = none;
    allowed_references = none;
  };
  status = record {
    conditions = [];
    ready = true;
    internal_url = "";
    version = "";
    static_api_key_secret_name = "main-api-key";
    observed_generation = 1;
  };
}

abbrev reference : CrossNamespaceObjectReference
reference = record { name = "main"; namespace = none }

abbrev pub user : User
user = record {
  metadata = named "jdoe" "auth";
  spec = record {
    instance_ref = reference;
    username = "jdoe";
    email = some "jdoe@example.com";
    first_name = "John";
    last_name = "Doe";
    display_name = "John Doe";
    is_admin = false;
    disabled = false;
    locale = "";
    user_group_refs = record { name = "developers" } ∷ [];
    send_onboarding_email = false;
    one_time_access_secret_ref = none;
  };
  status = record {
    conditions = [];
    ready = false;
    user_id = "u1";
    synced = false;
    last_sync_time = none;
    onboarding_link_created = false;
    onboarding_email_sent = false;
    onboarding_email_sent_at = none;
    observed_generation = 0;
  };
}

abbrev pub group : UserGroup
group = record {
  metadata = named "developers" "auth";
  spec = record {
    instance_ref = reference;
    name = "developers";
    friendly_name = "Development Team";
    is_default = false;
    custom_claims = [];
  };
  status = record {
    conditions = [];
    ready = true;
    group_id = "g1";
    user_count = pos 0;
    synced = true;
    last_sync_time = none;
    observed_generation = 1;
  };
}

abbrev pub oidc_client : OidcClient
oidc_client = record {
  metadata = named "my-app" "auth";
  spec = record {
    instance_ref = reference;
    name = "my-app";
    client_id = "";
    is_public = false;
    callback_urls = "https://app.example.com/callback" ∷ [];
    logout_callback_urls = [];
    allowed_user_group_refs = [];
    credentials_secret_ref = some (record { name = "my-app-credentials" });
    pkce_enabled = true;
    http_route_selector = none;
    envoy_gateway = none;
  };
  status = record {
    conditions = [];
    ready = false;
    client_id = "c1";
    synced = false;
    last_sync_time = none;
    credentials_secret_name = "";
    security_policy_name = "";
    observed_generation = 0;
  };
}

abbrev pub api_key_secret : Secret
api_key_secret = record {
  metadata = named "main-api-key" "auth";
  contents = ("STATIC_API_KEY", "k") ∷ [];
}

-- A route that asks for a client.
abbrev pub route : HttpRoute
route = record {
  metadata = record (named "my-app" "auth") {
    annotations =
        ("pocketid.tobiash.github.io/oidc-enabled", "true")
        ∷ ("pocketid.tobiash.github.io/allowed-groups", " developers, admins,,developers")
        ∷ [];
  };
  hostnames = "app.example.com" ∷ [];
}

-- The resource is being deleted.
abbrev pub deleting : String → ObjectMeta → ObjectMeta
deleting finalizer m = record m { deletion_timestamp = some 1; finalizers = finalizer ∷ [] }

abbrev pub sample_get :
    User → UserGroup → OidcClient → (k : Kind) → History → Key → Result (Carrier k)
sample_get u g c instance_kind h key = ok instance
sample_get u g c user_kind h key = ok u
sample_get u g c user_group_kind h key = ok g
sample_get u g c oidc_client_kind h key = ok c
sample_get u g c secret_kind h key = ok api_key_secret
sample_get u g c namespace_kind h key = err (not_found "namespace")
sample_get u g c config_map_kind h key = err (not_found "config map")
sample_get u g c service_kind h key = err (not_found "service")
sample_get u g c stateful_set_kind h key = err (not_found "stateful set")
sample_get u g c security_policy_kind h key = err (not_found "policy")
sample_get u g c http_route_kind h key = ok route

abbrev pub sample_list :
    UserGroup → OidcClient → (k : Kind) → History → String → Result (List (Carrier k))
sample_list g c instance_kind h namespace = ok (instance ∷ [])
sample_list g c user_kind h namespace = ok []
sample_list g c user_group_kind h namespace = ok (g ∷ [])
sample_list g c oidc_client_kind h namespace = ok (c ∷ [])
sample_list g c secret_kind h namespace = ok []
sample_list g c namespace_kind h namespace = ok []
sample_list g c config_map_kind h namespace = ok []
sample_list g c service_kind h namespace = ok []
sample_list g c stateful_set_kind h namespace = ok []
sample_list g c security_policy_kind h namespace = ok []
sample_list g c http_route_kind h namespace = ok []

abbrev pub environment : User → UserGroup → OidcClient → Exchange → Env
environment u g c answer = record {
  lib = machinery;
  get = sample_get u g c;
  list = sample_list g c;
  write = λ v k h x. ok x;
  http = λ h r. answer;
  now = λ h. 7;
  random = λ h n. replicate n 171;
  getenv = λ name. if name == "KUBERNETES_SERVICE_HOST" then "10.0.0.1" else "";
  range = λ h ks. ks;
}
