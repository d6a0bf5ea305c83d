-- ===== src/Net/Url.antt =====
-- A URL as the platform's `URL` class gives it. Parsing is the platform's, so the functions that
-- take a text are given `parse_url`, which is `none` where `new URL` throws.
use authlane.Prelude.{String}

pub record Url : Type 0 where
  pub href : String
  pub protocol : String
  pub username : String
  pub password : String
  pub hostname : String
  pub port : String
  pub pathname : String
  pub search : String
  pub hash : String
  pub origin : String
