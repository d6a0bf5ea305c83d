-- ===== src/OAuth/Registry.antt =====
-- The tables of packages/shared/src/oauth-endpoints.ts: the endpoints of every built-in provider, the
-- services that authenticate in their own way, and the fields of provider contexts.
use authlane.Prelude.{String, Bool, Option, none, some, List, [], ◌∷◌, any, if◌then◌else◌, ◌==◌}

pub data EndpointKind : Type 0 where
  authorization token : EndpointKind

pub record ServiceEndpoints : Type 0 where
  pub service_id : String
  pub authorization : List String
  pub token : List String

abbrev endpoints : String → List String → List String → ServiceEndpoints
endpoints service_id to_authorize to_exchange = record {
  service_id = service_id;
  authorization = to_authorize;
  token = to_exchange;
}

unfoldable pub oauth_endpoints : List ServiceEndpoints
oauth_endpoints =
    endpoints "github" ("https://github.com/login/oauth/authorize" ∷ [])
      ("https://github.com/login/oauth/access_token" ∷ [])
    ∷ endpoints "linear" ("https://linear.app/oauth/authorize" ∷ [])
        ("https://api.linear.app/oauth/token" ∷ [])
    ∷ endpoints "jira" ("https://auth.atlassian.com/authorize" ∷ [])
        ("https://auth.atlassian.com/oauth/token" ∷ [])
    ∷ endpoints "slack"
        ("https://slack.com/oauth/v2_user/authorize" ∷ "https://slack.com/oauth/v2/authorize" ∷ [])
        ("https://slack.com/api/oauth.v2.user.access" ∷ "https://slack.com/api/oauth.v2.access"
          ∷ [])
    ∷ endpoints "discord" ("https://discord.com/api/oauth2/authorize" ∷ [])
        ("https://discord.com/api/oauth2/token" ∷ [])
    ∷ endpoints "gmail" ("https://accounts.google.com/o/oauth2/v2/auth" ∷ [])
        ("https://oauth2.googleapis.com/token" ∷ [])
    ∷ endpoints "google-drive" ("https://accounts.google.com/o/oauth2/v2/auth" ∷ [])
        ("https://oauth2.googleapis.com/token" ∷ [])
    ∷ endpoints "google-calendar" ("https://accounts.google.com/o/oauth2/v2/auth" ∷ [])
        ("https://oauth2.googleapis.com/token" ∷ [])
    ∷ endpoints "notion" ("https://api.notion.com/v1/oauth/authorize" ∷ [])
        ("https://api.notion.com/v1/oauth/token" ∷ [])
    ∷ endpoints "hubspot" ("https://mcp.hubspot.com/oauth/authorize/user" ∷ [])
        ("https://mcp.hubspot.com/oauth/v3/token" ∷ [])
    ∷ endpoints "salesforce"
        ("https://login.salesforce.com/services/oauth2/authorize"
          ∷ "https://test.salesforce.com/services/oauth2/authorize" ∷ [])
        ("https://login.salesforce.com/services/oauth2/token"
          ∷ "https://test.salesforce.com/services/oauth2/token" ∷ [])
    ∷ endpoints "pipedrive" ("https://oauth.pipedrive.com/oauth/authorize" ∷ [])
        ("https://oauth.pipedrive.com/oauth/token" ∷ [])
    ∷ endpoints "stripe" ("https://connect.stripe.com/oauth/authorize" ∷ [])
        ("https://connect.stripe.com/oauth/token" ∷ [])
    ∷ endpoints "airtable" ("https://airtable.com/oauth2/v1/authorize" ∷ [])
        ("https://airtable.com/oauth2/v1/token" ∷ [])
    ∷ endpoints "attio" ("https://app.attio.com/oidc/authorize" ∷ [])
        ("https://app.attio.com/oidc/token" ∷ [])
    ∷ endpoints "microsoft-calendar"
        ("https://login.microsoftonline.com/common/oauth2/v2.0/authorize" ∷ [])
        ("https://login.microsoftonline.com/common/oauth2/v2.0/token" ∷ [])
    ∷ endpoints "microsoft-mail"
        ("https://login.microsoftonline.com/common/oauth2/v2.0/authorize" ∷ [])
        ("https://login.microsoftonline.com/common/oauth2/v2.0/token" ∷ [])
    ∷ endpoints "microsoft-sharepoint"
        ("https://login.microsoftonline.com/common/oauth2/v2.0/authorize" ∷ [])
        ("https://login.microsoftonline.com/common/oauth2/v2.0/token" ∷ [])
    ∷ []

abbrev pub demo_oauth_endpoints : ServiceEndpoints
demo_oauth_endpoints =
    endpoints "authlane-demo" ("http://localhost:5175/demo-provider/authorize" ∷ [])
      ("http://localhost:5175/demo-provider/token" ∷ [])

abbrev pub of_kind : EndpointKind → ServiceEndpoints → List String
of_kind EndpointKind.authorization e = e.authorization
of_kind EndpointKind.token e = e.token

abbrev pub includes : String → List String → Bool
includes value values = any (λ v. v == value) values

abbrev pub has_basic_client_auth : String → Bool
has_basic_client_auth service_id = includes service_id ("airtable" ∷ "notion" ∷ "pipedrive" ∷ [])

abbrev pub has_json_token_body : String → Bool
has_json_token_body service_id = includes service_id ("notion" ∷ [])

pub record ContextProfile : Type 0 where
  pub field : String
  pub parent_domain : String

-- `PROVIDER_CONTEXT_FIELDS`, without the labels of the messages.
abbrev pub provider_context_field : String → Option ContextProfile
provider_context_field service_id =
    if service_id == "pipedrive"
    then some (record { field = "api_domain"; parent_domain = "pipedrive.com" })
    else if service_id == "salesforce"
    then some (record { field = "instance_url"; parent_domain = "salesforce.com" })
    else none
