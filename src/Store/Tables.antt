-- ===== src/Store/Tables.antt =====
-- The rows of packages/database/src/schema that the modelled services read and write. A timestamp
-- is a number of milliseconds since 1970, a null column is `none`.
use authlane.Prelude.{ℕ, String, Option, none}
use authlane.Prelude.Json.{Json}

pub data ConnectionStatus : Type 0 where
  pending connected expired error : ConnectionStatus

pub record Connection : Type 0 where
  pub id : String
  pub organization_id : String
  pub external_user_id : String
  pub service_id : String
  pub status : ConnectionStatus
  pub credential_secret_id : Option String
  pub metadata : Json
  pub connected_at : Option ℕ
  pub expires_at : Option ℕ
  pub last_checked_at : Option ℕ
  pub last_error_code : Option String
  pub refresh_lock_token : Option String
  pub refresh_lock_expires_at : Option ℕ
  pub version : ℕ
  pub created_at : ℕ
  pub updated_at : ℕ

pub data EventStatus : Type 0 where
  pending processing delivered failed : EventStatus

pub record OutboxEvent : Type 0 where
  pub id : String
  pub organization_id : String
  pub event_type : String
  pub payload : Json
  pub status : EventStatus
  pub attempts : ℕ
  pub available_at : ℕ
  pub processing_at : Option ℕ
  pub last_error : Option String
  pub created_at : ℕ
  pub delivered_at : Option ℕ

-- A row inserted with the columns' defaults, at the time `now` of the database.
abbrev pub new_event : String → ℕ → String → String → Json → OutboxEvent
new_event id now organization_id event_type payload = record {
  id = id;
  organization_id = organization_id;
  event_type = event_type;
  payload = payload;
  status = EventStatus.pending;
  attempts = 0;
  available_at = now;
  processing_at = none;
  last_error = none;
  created_at = now;
  delivered_at = none;
}
