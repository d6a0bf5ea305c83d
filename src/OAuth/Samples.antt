-- ===== src/OAuth/Samples.antt =====
-- A platform for tests: every URL is GitHub's token endpoint.
use authlane.Prelude.{ℕ, String, false, some, [], ◌∷◌}
use authlane.Prelude.Json.{Json, not_finite}
use authlane.Net.Url.{Url}
use authlane.OAuth.Trust.{UrlPlatform}
use authlane.OAuth.TokenRequest.{TokenPlatform}

abbrev pub token_url_of : String
token_url_of = "https://github.com/login/oauth/access_token"

abbrev pub github_url : Url
github_url = record {
  href = token_url_of;
  protocol = "https:";
  username = "";
  password = "";
  hostname = "github.com";
  port = "";
  pathname = "/login/oauth/access_token";
  search = "";
  hash = "";
  origin = "https://github.com";
}

abbrev pub url_platform : UrlPlatform
url_platform = record { parse_url = λ text. some github_url; lower = λ text. text }

-- A provider that answers with a status and a body.
abbrev pub token_platform : ℕ → Json → TokenPlatform
token_platform status body = record {
  urls = url_platform;
  demo = false;
  base64 = λ text. text;
  decode_json = λ bytes. some body;
  post = λ request.
      some (record {
        status = status;
        content_length = not_finite;
        chunks = some ((1 ∷ 2 ∷ []) ∷ []);
      });
}
