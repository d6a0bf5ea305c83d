-- ===== src/Servers/Tables.antt =====
-- The two tables of packages/database/src/schema/mcp-servers.ts. A tool's risk is one of the three
-- that the table admits.
use authlane.Prelude.{ℕ, String, Bool, Option, List}
use authlane.Prelude.Json.{Json}
use authlane.Tools.Safety.{ToolRisk}

pub record McpServer : Type 0 where
  pub id : String
  pub organization_id : String
  pub name : String
  pub server_url : String
  pub auth_type : String
  pub discovered_at : Option ℕ
  pub discovery_error : Option String
  pub oauth_metadata : Option Json
  pub oauth_client_id : Option String
  pub oauth_client_secret_id : Option String
  pub oauth_client_source : Option String
  pub oauth_client_error : Option String
  pub enabled : Bool
  pub authorization_required : Bool
  pub created_at : ℕ
  pub updated_at : ℕ

pub record McpServerTool : Type 0 where
  pub server_id : String
  pub name : String
  pub description : Option String
  pub input_schema : Json
  pub declared_annotations : Option Json
  pub risk : ToolRisk
  pub approved : Bool
  pub first_seen_at : ℕ
  pub last_seen_at : ℕ

pub record ServerState : Type 0 where
  pub servers : List McpServer
  pub tools : List McpServerTool
