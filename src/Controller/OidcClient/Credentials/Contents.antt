-- ===== src/Controller/OidcClient/Credentials/Contents.antt =====
-- The keys that `ensureCredentialsSecret` of pocketidoidcclient_controller.go sets in a secret.
use pocketid_operator.Base.{
  ◌≡◌, refl, ◌∙◌, String, Bool, false, ◌==◌, string_eq, ◌||◌, if◌then◌else◌, some, arith,
}
use pocketid_operator.Base.Dict.{Dict, lookup, insert, lookup-insert}
use pocketid_operator.Controller.OidcClient.Credentials.{with_credentials}

-- The four keys that the operator writes.
abbrev pub is_credential : String → Bool
is_credential k =
    "client-secret" == k
    || "OIDC_ISSUER_URL" == k
    || "OIDC_CLIENT_SECRET" == k
    || "OIDC_CLIENT_ID" == k

-- A secret holds the credentials, and for the rest what it held before.
pub record Holds (contents before : Dict String) (client_id client_secret issuer : String)
    : Type 0 where
  pub id : lookup "OIDC_CLIENT_ID" contents ≡ some client_id
  pub secret : lookup "OIDC_CLIENT_SECRET" contents ≡ some client_secret
  pub gateway_secret : lookup "client-secret" contents ≡ some client_secret
  pub issuer_url : lookup "OIDC_ISSUER_URL" contents ≡ some issuer
  pub others : (k : String) → is_credential k ≡ false → lookup k contents ≡ lookup k before

module _ (client_id client_secret issuer : String) (before : Dict String) where
  abbrev with_id : Dict String
  with_id = insert "OIDC_CLIENT_ID" client_id before

  abbrev with_both : Dict String
  with_both = insert "OIDC_CLIENT_SECRET" client_secret with_id

  abbrev with_issuer : Dict String
  with_issuer = insert "OIDC_ISSUER_URL" issuer with_both

  lookup-with_credentials :
      (k : String)
      → lookup k (with_credentials client_id client_secret issuer before) ≡ (
          if "client-secret" == k
          then some client_secret
          else if "OIDC_ISSUER_URL" == k
          then some issuer
          else if "OIDC_CLIENT_SECRET" == k
          then some client_secret
          else if "OIDC_CLIENT_ID" == k
          then some client_id
          else lookup k before)
  lookup-with_credentials k =
      rw
        (
          lookup-insert "client-secret" k client_secret with_issuer,
          lookup-insert "OIDC_ISSUER_URL" k issuer with_both,
          lookup-insert "OIDC_CLIENT_SECRET" k client_secret with_id,
          lookup-insert "OIDC_CLIENT_ID" k client_id before,
        )
        refl

  pub with_credentials-Holds :
      Holds
        (with_credentials client_id client_secret issuer before)
        before
        client_id
        client_secret
        issuer
  with_credentials-Holds = record {
    id = lookup-with_credentials "OIDC_CLIENT_ID";
    secret = lookup-with_credentials "OIDC_CLIENT_SECRET";
    gateway_secret = lookup-with_credentials "client-secret";
    issuer_url = lookup-with_credentials "OIDC_ISSUER_URL";
    others = λ k other. lookup-with_credentials k ∙ ground arith;
  }
