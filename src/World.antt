-- ===== src/World.antt =====
-- The outside of the operator: the Kubernetes API, the PocketID server, the clock, the process
-- environment and the library functions of apimachinery and controller-runtime.
--
-- Every effect is an event, and the events so far are the history, newest first. An environment
-- answers each effect by any function of the history, so a statement about all environments is
-- one about every behaviour of the servers, failures and other writers included.
pub mod Keeps
pub mod Effects
pub mod Ends
pub mod Costs
use pocketid_operator.Base.{ℕ, String, Bool, Option, none, some, List, [], ◌∷◌}
use pocketid_operator.Base.Dict.{Dict}
use pocketid_operator.Error.{Error, Result, ok, err}
use pocketid_operator.Api.Meta.{Time, ObjectMeta, Key, Condition}
use pocketid_operator.Api.Core
use pocketid_operator.Api.Workload
use pocketid_operator.Api.Instance
use pocketid_operator.Api.User
use pocketid_operator.Api.UserGroup
use pocketid_operator.Api.OidcClient
use pocketid_operator.PocketId.Request.{Request, Exchange}

pub data Kind : Type 0 where
  instance_kind user_kind user_group_kind oidc_client_kind : Kind
  secret_kind namespace_kind config_map_kind service_kind stateful_set_kind : Kind
  security_policy_kind http_route_kind : Kind

abbrev pub Carrier : Kind → Type 0
Carrier instance_kind = Instance.Instance
Carrier user_kind = User.User
Carrier user_group_kind = UserGroup.UserGroup
Carrier oidc_client_kind = OidcClient.OidcClient
Carrier secret_kind = Core.Secret
Carrier namespace_kind = Core.Namespace
Carrier config_map_kind = Core.ConfigMap
Carrier service_kind = Core.Service
Carrier stateful_set_kind = Workload.StatefulSet
Carrier security_policy_kind = Core.SecurityPolicy
Carrier http_route_kind = Core.HttpRoute

-- `Create`, `Update`, `Status().Update`, `Patch` and `Delete`.
pub data Verb : Type 0 where
  create update update_status patch delete : Verb

pub data Event : Type 0 where
  got : Kind → Key → Event
  listed : Kind → String → Event
  wrote : Verb → (k : Kind) → Carrier k → Event
  sent : Request → Event
  read_clock read_random : Event

abbrev pub History : Type 0
History = List Event

-- Library functions that are not effects. `set_status_condition` is given the time that it reads.
pub record Machinery : Type 0 where
  pub contains_finalizer : ObjectMeta → String → Bool
  pub add_finalizer : ObjectMeta → String → ObjectMeta
  pub remove_finalizer : ObjectMeta → String → ObjectMeta
  pub set_controller_reference : Kind → ObjectMeta → ObjectMeta → Result ObjectMeta
  pub set_status_condition : Time → List Condition → Condition → List Condition
  pub find_status_condition : List Condition → String → Option Condition
  pub is_status_condition_true : List Condition → String → Bool
  pub remove_status_condition : List Condition → String → List Condition
  -- `labels.SelectorFromSet(set).String()`
  pub selector_text : Dict String → String
  -- `labels.Parse`, whose result is applied by `Matches`
  pub parse_selector : String → Result (Dict String → Bool)
  -- `resource.ParseQuantity`, in bytes
  pub parse_quantity : String → Result ℕ

pub record Env : Type 0 where
  pub lib : Machinery
  pub open lib use *
  pub get : (k : Kind) → History → Key → Result (Carrier k)
  pub list : (k : Kind) → History → String → Result (List (Carrier k))
  pub write : Verb → (k : Kind) → History → Carrier k → Result (Carrier k)
  pub http : History → Request → Exchange
  pub now : History → Time
  pub random : History → ℕ → List ℕ
  pub getenv : String → String
  -- the order in which `range` meets the keys of a map
  pub range : History → List String → List String

abbrev pub M : Type 0 → Type 0
M A = History → A × History

abbrev pub pure : {A : Type 0} → A → M A
pure a h = (a, h)

infixl 5 ◌>>=◌ ◌>>◌
unfoldable pub ◌>>=◌ : {A B : Type 0} → M A → (A → M B) → M B
◌>>=◌ m f h = let (a, h') = m h in f a h'

abbrev pub ◌>>◌ : {A B : Type 0} → M A → M B → M B
m >> n = m >>= λ _. n

-- `if err != nil { return … }`
abbrev pub on_error : {A B : Type 0} → Result A → (Error → M B) → (A → M B) → M B
on_error (ok a) failed next = next a
on_error (err e) failed next = failed e

-- A test for `nil`.
abbrev pub on_nil : {A B : Type 0} → Option A → M B → (A → M B) → M B
on_nil none missing next = missing
on_nil (some a) missing next = next a

module _ (env : Env) where
  unfoldable pub fetch : (k : Kind) → Key → M (Result (Carrier k))
  fetch k key h = (env.get k h key, got k key ∷ h)

  unfoldable pub fetch_all : (k : Kind) → String → M (Result (List (Carrier k)))
  fetch_all k namespace h = (env.list k h namespace, listed k namespace ∷ h)

  unfoldable pub put : Verb → (k : Kind) → Carrier k → M (Result (Carrier k))
  put v k x h = (env.write v k h x, wrote v k x ∷ h)

  unfoldable pub send : Request → M Exchange
  send r h = (env.http h r, sent r ∷ h)

  unfoldable pub clock : M Time
  clock h = (env.now h, read_clock ∷ h)

  -- `rand.Read` into so many bytes
  unfoldable pub read_bytes : ℕ → M (List ℕ)
  read_bytes n h = (env.random h n, read_random ∷ h)

  unfoldable pub range_keys : List String → M (List String)
  range_keys ks h = (env.range h ks, h)
