-- ===== src/Refresh/Types.antt =====
-- The data of a token refresh, and what it is given: the tables it only reads, the secret store, the
-- provider, and the writes of others that may come in between its own.
use authlane.Prelude.{ℕ, String, Bool, Option, List}
use authlane.Prelude.Json.{Json}
use authlane.Store.Tables.{Connection, OutboxEvent}
use authlane.OAuth.Applications.{PlatformOauthCredentials}
use authlane.OAuth.TokenRequest.{TokenPlatform}

pub record TokenRefreshData : Type 0 where
  pub connection_id : String
  pub service_id : String
  pub organization_id : String

pub record TokenRefreshResult : Type 0 where
  pub success : Bool
  pub error : Option String
  pub retryable : Option Bool
  pub expires_at : Option String

-- `SecretStore` over a state `S`, without `rewrap`. An operation that throws is `none`. The texts
-- are an organization's id and a purpose, and a secret's id before them.
pub record SecretStore (S : Type 0) : Type 0 where
  pub put : S → String → String → String → Option (String × S)
  pub read : S → String → String → String → Option String
  pub delete : S → String → String → String → Option S

pub record OrganizationService : Type 0 where
  pub enabled : Bool
  pub oauth_client_id : Option String
  pub oauth_client_secret_id : Option String

pub record RefreshEnvironment (S : Type 0) : Type 0 where
  pub store : SecretStore S
  pub tokens : TokenPlatform
  pub parse_json : String → Option Json
  pub stringify : Json → String
  pub to_iso : ℕ → String
  -- The clock at the claim, and at the later reads.
  pub now : ℕ
  pub later : ℕ
  pub lock_token : String
  pub event_id : String
  -- The `token_url` of a service's row, if there is a row.
  pub service : String → Option (Option String)
  -- By organization and service.
  pub organization_service : String → String → Option OrganizationService
  pub platform_credentials : String → Option PlatformOauthCredentials
  -- What others write to the connections after the claim, and before the lease is released.
  pub meanwhile : List Connection → List Connection
  pub afterwards : List Connection → List Connection

pub record RefreshState (S : Type 0) : Type 0 where
  pub connections : List Connection
  pub events : List OutboxEvent
  pub secrets : S

-- How the `try` block ends.
pub data Ending (S : Type 0) : Type 0 where
  returned : TokenRefreshResult → RefreshState S → Ending S
  threw : RefreshState S → Ending S
