-- ===== src/OAuth/Applications.antt =====
-- The platform's own OAuth applications: packages/shared/src/platform-oauth.ts. The process
-- environment is a function, and upper case is the platform's.
use Prim.Native.Char.{code}
use authlane.Prelude.{String, Option, none, some, trim, eqb, is_empty, if◌then◌else◌, ◌<>◌}

pub record PlatformOauthCredentials : Type 0 where
  pub client_id : String
  pub client_secret : String

pub record ProcessEnvironment : Type 0 where
  pub variable : String → Option String
  pub upper : String → String

-- `value.replaceAll('-', '_')`.
unfoldable pub underscored : String → String
underscored String.[] = String.[]
underscored (String.◌∷◌ c s) =
    (if eqb (code c) 45 then "_" else String.◌∷◌ c String.[]) <> underscored s

abbrev pub platform_oauth_env_prefix : ProcessEnvironment → String → String
platform_oauth_env_prefix env service_id = "AUTHLANE_OAUTH_" <> env.upper (underscored service_id)

abbrev trimmed : Option String → String
trimmed none = ""
trimmed (some value) = trim value

unfoldable pub platform_oauth_credentials :
    ProcessEnvironment → String → Option PlatformOauthCredentials
platform_oauth_credentials env service_id =
    let prefix = platform_oauth_env_prefix env service_id in
    let client_id = trimmed (env.variable (prefix <> "_CLIENT_ID")) in
    if is_empty client_id
    then none
    else some (record {
      client_id = client_id;
      client_secret = trimmed (env.variable (prefix <> "_CLIENT_SECRET"));
    })
