-- ===== src/Flow/Samples.antt =====
-- Concrete tables and surroundings for the tests of the connect flow.
use authlane.Prelude.{
  ℕ, String, true, false, none, some, [], ◌∷◌, decimal, ◌<>◌, ◌==◌, if◌then◌else◌,
}
use authlane.Prelude.Json.{null, str, num, natural, arr, obj, nil, cons, field, end}
use authlane.Store.Tables.{ConnectionStatus, Connection}
use authlane.Refresh.Types.{SecretStore}
use authlane.OAuth.Samples.{token_url_of, github_url, token_platform}
use authlane.OAuth.Trust.{UrlPlatform}
use authlane.OAuth.TokenRequest.{TokenPlatform}
use authlane.Flow.Tables.{ConnectSession, Service}
use authlane.Flow.Types.{FlowState, FlowEnvironment}
use authlane.Flow.Request.{ConnectRequest}
use authlane.Flow.Sessions.{ConnectSessionBody}
use authlane.Flow.Callback.{CallbackQuery}

-- A secret store that keeps one text, whatever its name.
abbrev pub store : SecretStore String
store = record {
  put = λ s organization purpose text. some ("secret", text);
  read = λ s id organization purpose. some s;
  delete = λ s id organization purpose. some s;
}

abbrev pub github : Service
github = record {
  id = "github";
  auth_type = "oauth2";
  enabled = true;
  config = obj (
      field "authorization_url" (str "https://github.com/login/oauth/authorize")
        (field "token_url" (str token_url_of) (field "scopes" (arr (cons (str "repo") nil)) end)));
}

abbrev pub authorize_url : String
authorize_url = "https://github.com/login/oauth/authorize"

-- Every other URL is the token endpoint.
abbrev pub urls : UrlPlatform
urls = record {
  parse_url = λ text.
      some
        (if text == authorize_url then record github_url { href = authorize_url } else github_url);
  lower = λ text. text;
}

abbrev pub tokens : ℕ → TokenPlatform
tokens status =
    record (token_platform status
      (obj (field "access_token" (str "a") (field "expires_in" (num (natural 60)) end)))) {
        urls = urls;
      }

-- An environment at a time, with a state, where the provider answers with a status.
abbrev pub environment : ℕ → String → ℕ → FlowEnvironment String
environment now state status = record {
  store = store;
  tokens = tokens status;
  process = record { variable = λ name. some "client"; upper = λ text. text };
  production = true;
  demo = false;
  auth_url = some "https://api.example";
  request_origin = "http://localhost:3000";
  resolve_url = λ path base. base <> path;
  query_of = λ url. [];
  before = λ a b. true;
  hash_api_key = λ text. "h:" <> text;
  code_challenge = λ verifier. "c:" <> verifier;
  stringify = λ json. "{}";
  to_iso = decimal;
  now = now;
  later = now;
  token = "acs_token";
  state = state;
  code_verifier = "verifier";
  new_id = "new";
  transaction_id = "t1";
  event_id = "e1";
  services = github ∷ [];
  organization_services = [];
  mcp_servers = [];
  meanwhile = λ connections. connections;
}

abbrev pub session : ConnectSession
session = record {
  id = "s1";
  organization_id = "org";
  external_user_id = "u";
  token_hash = "h:acs";
  allowed_services = "github" ∷ [];
  allowed_origin = "https://app.example";
  expires_at = 900000;
  destructive_action_expires_at = some 300000;
  created_at = 0;
  revoked_at = none;
}

abbrev pub other_connection : Connection
other_connection = record {
  id = "c1";
  organization_id = "org";
  external_user_id = "v";
  service_id = "github";
  status = ConnectionStatus.connected;
  credential_secret_id = some "s";
  metadata = null;
  connected_at = some 1;
  expires_at = some 5;
  last_checked_at = none;
  last_error_code = none;
  refresh_lock_token = none;
  refresh_lock_expires_at = none;
  version = 3;
  created_at = 1;
  updated_at = 1;
}

abbrev pub start : FlowState String
start = record {
  connections = other_connection ∷ [];
  events = [];
  transactions = [];
  sessions = session ∷ [];
  secrets = "";
}

abbrev pub request : ConnectRequest
request = record {
  service_id = "github";
  token = some "acs";
  parent_origin = some "https://app.example";
}

abbrev pub query : CallbackQuery
query = record { service_id = "github"; code = some "code"; state = some "state"; error = none }

abbrev pub body : ConnectSessionBody
body = record {
  external_user_id = some "u";
  allowed_services = arr (cons (str "github") nil);
  allowed_origin = some token_url_of;
  expires_in_seconds = some 5000;
  reauthenticated_at = some (some 1000);
}
