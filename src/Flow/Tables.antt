-- ===== src/Flow/Tables.antt =====
-- The rows that the connect flow reads and writes beside connections and events: of
-- packages/database/src/schema connect-sessions.ts, oauth-transactions.ts, and the columns it selects
-- of the catalogue, of an organization's settings and of MCP servers.
use authlane.Prelude.{ℕ, String, Bool, Option, List}
use authlane.Prelude.Json.{Json}

pub record ConnectSession : Type 0 where
  pub id : String
  pub organization_id : String
  pub external_user_id : String
  pub token_hash : String
  pub allowed_services : List String
  pub allowed_origin : String
  pub expires_at : ℕ
  pub destructive_action_expires_at : Option ℕ
  pub created_at : ℕ
  pub revoked_at : Option ℕ

pub record OauthTransaction : Type 0 where
  pub id : String
  pub organization_id : String
  pub connection_id : String
  pub connect_session_id : String
  pub service_id : String
  pub state_hash : String
  pub pkce_secret_id : String
  pub callback_url : String
  pub allowed_origin : String
  pub expires_at : ℕ
  pub consumed_at : Option ℕ
  pub created_at : ℕ

-- A service of the catalogue.
pub record Service : Type 0 where
  pub id : String
  pub auth_type : String
  pub enabled : Bool
  pub config : Json

pub record OrganizationServiceRow : Type 0 where
  pub organization_id : String
  pub service_id : String
  pub enabled : Bool
  pub tool_access_policy : String
  pub oauth_client_id : Option String
  pub oauth_client_secret_id : Option String
  pub custom_scopes : Option (List String)

pub record McpServerConnectRow : Type 0 where
  pub id : String
  pub organization_id : String
  pub name : String
  pub server_url : String
  pub auth_type : String
  pub enabled : Bool
  pub oauth_client_id : Option String
  pub oauth_client_secret_id : Option String
  pub oauth_metadata : Option Json
  pub authorization_required : Bool
