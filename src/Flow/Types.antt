-- ===== src/Flow/Types.antt =====
-- The state that the routes share, what surrounds them, and how they answer.
use authlane.Prelude.{ℕ, String, Bool, Option, none, some, List, is_empty, if◌then◌else◌, ◌<>◌}
use authlane.Prelude.Json.{Json}
use authlane.Store.Tables.{Connection, OutboxEvent}
use authlane.OAuth.Applications.{ProcessEnvironment}
use authlane.OAuth.TokenRequest.{Param, TokenPlatform}
use authlane.Refresh.Types.{SecretStore}
use authlane.Flow.Tables.{
  ConnectSession, OauthTransaction, Service, OrganizationServiceRow, McpServerConnectRow,
}

pub record FlowState (S : Type 0) : Type 0 where
  pub connections : List Connection
  pub events : List OutboxEvent
  pub transactions : List OauthTransaction
  pub sessions : List ConnectSession
  pub secrets : S

pub record FlowEnvironment (S : Type 0) : Type 0 where
  pub store : SecretStore S
  pub tokens : TokenPlatform
  pub process : ProcessEnvironment
  -- `NODE_ENV === 'production'`, `isDemoServiceEnabled()` and `BETTER_AUTH_URL`.
  pub production : Bool
  pub demo : Bool
  pub auth_url : Option String
  -- `new URL(requestUrl).origin`, and `new URL(path, base).toString()`.
  pub request_origin : String
  pub resolve_url : String → String → String
  -- The parameters that a URL already has.
  pub query_of : String → List Param
  pub before : String → String → Bool
  pub hash_api_key : String → String
  pub code_challenge : String → String
  pub stringify : Json → String
  pub to_iso : ℕ → String
  -- The clock at the start of a request, and when it writes.
  pub now : ℕ
  pub later : ℕ
  -- Fresh values.
  pub token : String
  pub state : String
  pub code_verifier : String
  pub new_id : String
  pub transaction_id : String
  pub event_id : String
  -- The tables that the routes only read.
  pub services : List Service
  pub organization_services : List OrganizationServiceRow
  pub mcp_servers : List McpServerConnectRow
  -- What others write to the connections while the provider answers.
  pub meanwhile : List Connection → List Connection

pub record AuthorizationUrl : Type 0 where
  pub endpoint : String
  pub params : List Param

-- A refusal has its HTTP status and the text that the route gives.
pub data Reply : Type 0 where
  refused : ℕ → String → Reply
  session_created : String → ℕ → Reply
  key_connected : Reply
  authorization : AuthorizationUrl → Reply
  redirected : Reply
  disconnected : Bool → Reply

-- All database work under a tenant's context is one transaction, which a throw undoes with the secret
-- store's own rows. So the state after a throw is that before the context was entered.
pub data Outcome (S : Type 0) : Type 0 where
  answered : Reply → FlowState S → Outcome S
  threw : FlowState S → Outcome S

abbrev api_base_or : Option String → String → String
api_base_or none origin = origin
api_base_or (some url) origin = if is_empty url then origin else url

module _ {S : Type 0} where
  abbrev pub state_of : Outcome S → FlowState S
  state_of (answered reply st) = st
  state_of (threw st) = st

  abbrev pub reply_of : Outcome S → Option Reply
  reply_of (answered reply st) = some reply
  reply_of (threw st) = none

  unfoldable pub public_api_base : FlowEnvironment S → String
  public_api_base env = api_base_or env.auth_url env.request_origin

  unfoldable pub oauth_callback_url : FlowEnvironment S → String → String
  unfolding public_api_base
  oauth_callback_url env service_id =
      env.resolve_url ("/api/v1/oauth/" <> (service_id <> "/callback")) (public_api_base env)
