-- ===== src/PocketId/Request.antt =====
-- What internal/pocketid/client.go sends and receives. A body is the value that `json.Marshal` is
-- given (it cannot fail on these types), and an answer is the value that the decoder finds in the
-- response's text, so the JSON texts themselves are not spelled out.
use pocketid_operator.Base.{ℕ, String, Option, none, some, List}
use pocketid_operator.PocketId.Types.{OidcClient, User, UserGroup, UserGroupCreate}

-- `Client`; the timeout of its `http.Client` belongs to the transport.
pub record Client : Type 0 where
  pub base_url : String
  pub api_key : String

-- `NewClient`
unfoldable pub new_client : String → String → Client
new_client base_url api_key = record { base_url = base_url; api_key = api_key }

pub data Method : Type 0 where
  method_get method_post method_put method_delete : Method

pub data Body : Type 0 where
  no_body empty_object : Body
  user_body : User → Body
  group_body : UserGroupCreate → Body
  client_body : OidcClient → Body
  user_ids_body user_group_ids_body : List String → Body

pub record Request : Type 0 where
  pub method : Method
  pub base_url : String
  pub path : String
  pub api_key : String
  pub body : Body

-- The value in the text of an answer.
pub data Payload : Type 0 where
  users_payload : List User → Payload
  user_payload : User → Payload
  groups_payload : List UserGroup → Payload
  group_payload : UserGroup → Payload
  clients_payload : List OidcClient → Payload
  client_payload : OidcClient → Payload
  secret_payload token_payload : String → Payload
  undecodable : Payload

-- What comes of `http.NewRequestWithContext` and `HTTPClient.Do`.
pub data Exchange : Type 0 where
  not_created not_performed : String → Exchange
  answered : ℕ → String → Payload → Exchange

-- The decoders, one for each type of result.
abbrev pub as_users : Payload → Option (List User)
as_users (users_payload us) = some us
as_users _ = none

abbrev pub as_user : Payload → Option User
as_user (user_payload u) = some u
as_user _ = none

abbrev pub as_groups : Payload → Option (List UserGroup)
as_groups (groups_payload gs) = some gs
as_groups _ = none

abbrev pub as_group : Payload → Option UserGroup
as_group (group_payload g) = some g
as_group _ = none

abbrev pub as_clients : Payload → Option (List OidcClient)
as_clients (clients_payload cs) = some cs
as_clients _ = none

abbrev pub as_client : Payload → Option OidcClient
as_client (client_payload c) = some c
as_client _ = none

abbrev pub as_secret : Payload → Option String
as_secret (secret_payload s) = some s
as_secret _ = none

abbrev pub as_token : Payload → Option String
as_token (token_payload t) = some t
as_token _ = none
