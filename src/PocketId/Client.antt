-- ===== src/PocketId/Client.antt =====
-- internal/pocketid/client.go (`doRequest`), user.go, group.go and oidc.go
pub mod Response
use Prim.Native.String.{◌++◌ as ◌<>◌}
use pocketid_operator.Base.{
  ℕ, String, Bool, true, false, ◌==◌, nat_eq, if◌then◌else◌, Option, none, some, List, [], ◌&&◌,
  not,
}
use Prim.Native.Nat.{compare, Ordering}
use pocketid_operator.Error.{Error, plain, api_error, Result, ok, err, wrap}
use pocketid_operator.World.{Env, M, pure, send, ◌>>=◌}
use pocketid_operator.PocketId.Types.{
  OidcClient, User, UserGroup, UserGroupCreate, OnboardingResponse, zero_user, zero_group,
  zero_client,
}
use pocketid_operator.PocketId.Request.{
  Client, Method, method_get, method_post, method_put, method_delete, Body, no_body, empty_object,
  user_body, group_body, client_body, user_ids_body, user_group_ids_body, Request, Payload,
  Exchange, not_created, not_performed, answered, as_users, as_user, as_groups, as_group,
  as_clients, as_client, as_secret, as_token,
}

-- `resp.StatusCode >= 400`
abbrev pub is_failure : ℕ → Bool
is_failure code = elim (compare code 400) [ Ordering.lt ↦ false | _ ↦ true ]

-- `doRequest` behind `Do`: `zero` is the value that the result variable holds before the decoder
-- writes to it, and that it keeps on 204 No Content.
abbrev pub decode_result : {A : Type 0} → (Payload → Option A) → A → Payload → Result A
decode_result decode zero payload = elim (decode payload) [
  | none ↦ err (wrap "failed to decode response: " (plain "unexpected JSON"))
  | some a ↦ ok a
]

unfoldable pub read_response : {A : Type 0} → (Payload → Option A) → A → Exchange → Result A
read_response decode zero (not_created m) = err (wrap "failed to create request: " (plain m))
read_response decode zero (not_performed m) = err (wrap "failed to perform request: " (plain m))
read_response decode zero (answered code text payload) =
    if is_failure code
    then err (api_error code text)
    else if not (code == 204)
    then decode_result decode zero payload
    else ok zero

-- A request with no result variable reads nothing of the body.
abbrev pub ignore_body : Payload → Option (Unit {0})
ignore_body p = some tt

abbrev pub user_path : String → String
user_path id = "/api/users/" <> id

abbrev pub group_path : String → String
group_path id = "/api/user-groups/" <> id

abbrev pub client_path : String → String
client_path id = "/api/oidc/clients/" <> id

abbrev pub request : Client → Method → String → Body → Request
request c method path body = record {
  method = method;
  base_url = c.base_url;
  path = path;
  api_key = c.api_key;
  body = body;
}

module _ (env : Env) (c : Client) where
  unfoldable pub do_request :
      {A : Type 0} → Method → String → Body → (Payload → Option A) → A → M (Result A)
  do_request method path body decode zero = do
    answer ← send env (request c method path body)
    pure (read_response decode zero answer)

  unfoldable pub list_users : M (Result (List User))
  list_users = do_request method_get "/api/users" no_body as_users []

  unfoldable pub get_user : String → M (Result User)
  get_user id = do_request method_get (user_path id) no_body as_user zero_user

  unfoldable pub create_user : User → M (Result User)
  create_user user = do_request method_post "/api/users" (user_body user) as_user zero_user

  unfoldable pub create_user_without_result : User → M (Result (Unit {0}))
  create_user_without_result user =
      do_request method_post "/api/users" (user_body user) ignore_body tt

  unfoldable pub update_user : String → User → M (Result User)
  update_user id user = do_request method_put (user_path id) (user_body user) as_user zero_user

  unfoldable pub delete_user : String → M (Result (Unit {0}))
  delete_user id = do_request method_delete (user_path id) no_body ignore_body tt

  unfoldable pub create_one_time_access_token : String → M (Result OnboardingResponse)
  create_one_time_access_token user_id =
      do_request method_post (user_path user_id <> "/one-time-access-token") empty_object
        (λ p. elim (as_token p) [ none ↦ none | some t ↦ some (record { token = t }) ])
        (record { token = "" })

  unfoldable pub set_user_groups : String → List String → M (Result (Unit {0}))
  set_user_groups user_id group_ids =
      do_request method_put (user_path user_id <> "/user-groups") (user_group_ids_body group_ids)
        ignore_body tt

  unfoldable pub list_groups : M (Result (List UserGroup))
  list_groups = do_request method_get "/api/user-groups" no_body as_groups []

  unfoldable pub get_group : String → M (Result UserGroup)
  get_group id = do_request method_get (group_path id) no_body as_group zero_group

  unfoldable pub create_group : UserGroupCreate → M (Result UserGroup)
  create_group group =
      do_request method_post "/api/user-groups" (group_body group) as_group zero_group

  unfoldable pub update_group : String → UserGroupCreate → M (Result UserGroup)
  update_group id group =
      do_request method_put (group_path id) (group_body group) as_group zero_group

  unfoldable pub delete_group : String → M (Result (Unit {0}))
  delete_group id = do_request method_delete (group_path id) no_body ignore_body tt

  unfoldable pub set_group_users : String → List String → M (Result (Unit {0}))
  set_group_users group_id user_ids =
      do_request method_put (group_path group_id <> "/users") (user_ids_body user_ids) ignore_body
        tt

  unfoldable pub list_oidc_clients : M (Result (List OidcClient))
  list_oidc_clients = do_request method_get "/api/oidc/clients" no_body as_clients []

  unfoldable pub get_oidc_client : String → M (Result OidcClient)
  get_oidc_client id = do_request method_get (client_path id) no_body as_client zero_client

  unfoldable pub create_oidc_client : OidcClient → M (Result OidcClient)
  create_oidc_client client =
      do_request method_post "/api/oidc/clients" (client_body client) as_client zero_client

  unfoldable pub update_oidc_client : String → OidcClient → M (Result OidcClient)
  update_oidc_client id client =
      do_request method_put (client_path id) (client_body client) as_client zero_client

  unfoldable pub delete_oidc_client : String → M (Result (Unit {0}))
  delete_oidc_client id = do_request method_delete (client_path id) no_body ignore_body tt

  unfoldable pub generate_client_secret : String → M (Result String)
  generate_client_secret id =
      do_request method_post (client_path id <> "/secret") no_body as_secret ""
