-- ===== src/Outbox/Delivery.antt =====
-- Delivering one event to a tenant's webhook: `deliverWebhook`, `signWebhook`, `webhookConfig` of
-- outbox.ts and `validateWebhookUrl` of webhook-http.ts.
-- What the platform does is a parameter: parsing and printing JSON, parsing URLs, the HMAC, dates as
-- ISO texts, and the network (`post` is `none` where the request throws, also where the address
-- that the host resolves to is refused).
use authlane.Prelude.{
  ℕ, ◌/◌, String, Bool, true, false, not, ◌&&◌, ◌||◌, Option, none, some, leb, ltb, is_empty, units,
  ends_with, decimal, if◌then◌else◌, ◌==◌, ◌<>◌,
}
use authlane.Prelude.Json.{Json, str, obj, field, end, get, as_string, as_record}
use authlane.Net.Url.{Url}
use authlane.Store.Tables.{OutboxEvent}

pub record WebhookRequest : Type 0 where
  pub url : String
  pub idempotency_key : String
  pub event : String
  pub timestamp : String
  pub signature : String
  pub body : String

-- What `deliverWebhook` and its callers are given.
pub record Platform : Type 0 where
  pub parse_json : String → Option Json
  pub stringify : Json → String
  pub parse_url : String → Option Url
  pub hmac : String → String → String
  pub to_iso : ℕ → String
  -- The status of the response.
  pub post : WebhookRequest → Option ℕ

pub record WebhookConfig : Type 0 where
  pub url : String
  pub secret : String

pub record StoredWebhookConfig : Type 0 where
  pub url : String
  pub secret_id : String

pub record DeliveryResult : Type 0 where
  pub delivered : Bool
  pub error : Option String

unfoldable pub is_valid_webhook_url : Url → Bool
is_valid_webhook_url url =
    url.protocol == "https:"
    && is_empty url.username
    && is_empty url.password
    && (is_empty url.port || url.port == "443")
    && is_empty url.hash
    && leb (units url.href) 2048
    && not (url.hostname == "localhost" || ends_with url.hostname ".localhost")

-- `validateWebhookUrl`, which throws where this is false.
unfoldable pub validate_webhook_url : Platform → String → Bool
unfolding is_valid_webhook_url
validate_webhook_url p value = elim (p.parse_url value) [
  | none ↦ false
  | some url ↦ is_valid_webhook_url url
]

abbrev pub sign_webhook : Platform → String → String → String → String
sign_webhook p secret timestamp body = p.hmac secret (timestamp <> ("." <> body))

-- The body of the request.
abbrev pub webhook_body : Platform → OutboxEvent → String
webhook_body p event = p.stringify (
    obj (
      field "id" (str event.id) (
        field "type" (str event.event_type)
          (field "createdAt" (str (p.to_iso event.created_at)) (field "data" event.payload end)))))

unfoldable pub webhook_request : Platform → OutboxEvent → WebhookConfig → ℕ → WebhookRequest
webhook_request p event config now =
    let timestamp = decimal (now / 1000) in
    let body = webhook_body p event in
    record {
      url = config.url;
      idempotency_key = event.id;
      event = event.event_type;
      timestamp = timestamp;
      signature = sign_webhook p config.secret timestamp body;
      body = body;
    }

abbrev pub response_ok : ℕ → Bool
response_ok status = leb 200 status && ltb status 300

abbrev delivery_result : Option ℕ → DeliveryResult
delivery_result none = record {
  delivered = false;
  error = some "Webhook request failed security validation or delivery";
}
delivery_result (some status) =
    if response_ok status
    then record { delivered = true; error = none }
    else record { delivered = false; error = some ("Webhook returned HTTP " <> decimal status) }

-- The result, and the request if one was sent.
unfoldable pub deliver_webhook :
    Platform → OutboxEvent → WebhookConfig → ℕ → DeliveryResult × Option WebhookRequest
unfolding validate_webhook_url webhook_request
deliver_webhook p event config now =
    let request = webhook_request p event config now in
    if validate_webhook_url p config.url
    then (delivery_result (p.post request), some request)
    else (delivery_result none, none)

abbrev both_texts : Option String → Option String → Option StoredWebhookConfig
both_texts (some url) (some secret_id) = some (record { url = url; secret_id = secret_id })
both_texts (some url) none = none
both_texts none secret_id = none

-- The settings in an organization's metadata; anything that is not an object has none.
unfoldable pub webhook_config : Platform → Option String → Option StoredWebhookConfig
unfolding get
webhook_config p none = none
webhook_config p (some metadata) =
    if is_empty metadata then none else elim (p.parse_json metadata) [
      | none ↦ none
      | some settings ↦ elim (as_record settings) [
        | none ↦ none
        | some fs ↦
            both_texts (as_string (get "webhookUrl" fs)) (as_string (get "webhookSecretId" fs))
      ]
    ]
