-- ===== src/Flow/Issued.antt =====
-- What a redirect to a provider carries, and whose connection its state can change.
use authlane.Prelude.{
  ℕ, ◌≡◌, ◌∙◌, ap, inl, inr, refl, sym, subst, String, true, false, not, Option, none, some, List,
  [], ◌∷◌, find, eq_iff, eq_refl, Bool-cases, ◌==◌, arith,
}
use authlane.Store.Tables.{Connection}
use authlane.Store.Keyed.{find-filter}
use authlane.OAuth.TokenRequest.{Param, set_param}
use authlane.Flow.Tables.{ConnectSession}
use authlane.Flow.Types.{
  FlowState, FlowEnvironment, AuthorizationUrl, state_of, reply_of, Reply, refused, authorization,
  oauth_callback_url,
}
use authlane.Flow.Request.{ConnectRequest, session_of}
use authlane.Flow.Authorize.{set_params, asked_id, authorization_url, authorize}
use authlane.Flow.Redirect.{issued, Approved, authorize_rule}

-- The value of a parameter.
abbrev pub param : String → List Param → Option Param
param name params = find (λ p. p.name == name) params

param-set_param :
    (name value : String) (params : List Param)
    → param name (set_param name value params) ≡ some (record { name = name; value = value })
param-set_param name value [] = rw (eq_refl name) refl
param-set_param name value (p ∷ ps) = elim (Bool-cases (p.name == name)) [
  | inl e ↦ rw (e, eq_refl name) refl
  | inr e ↦ rw (e, e) (param-set_param name value ps)
]

param-set_other :
    (other name value : String) (params : List Param)
    → (name == other) ≡ false
    → param other (set_param name value params) ≡ param other params
param-set_other other name value [] h = rw h refl
param-set_other other name value (p ∷ ps) h = elim (Bool-cases (p.name == name)) [
  | inl e ↦
      rw (e, h, moved e) (find-filter (λ r. r.name == other) (λ r. not (r.name == name)) others ps)
  | inr e ↦ elim (Bool-cases (p.name == other)) [
    | inl f ↦ rw (e, f) refl
    | inr f ↦ rw (e, f) (param-set_other other name value ps h)
  ]
]
  where
    moved : (p.name == name) ≡ true → (p.name == other) ≡ false
    moved e = rw ((eq_iff p.name name).0 e) h

    others : (r : Param) → (r.name == other) ≡ true → not (r.name == name) ≡ true
    others r f =
        ground (arith, eq_iff r.name other, eq_iff r.name name, eq_iff name other, eq_refl other)

module _ {S : Type 0} (env : FlowEnvironment S) (request : ConnectRequest) (st : FlowState S) where
  -- How a redirect was made.
  pub record Issue (url : AuthorizationUrl) (after : FlowState S) : Type 0 where
    pub session : ConnectSession
    pub admitted : session_of env request st ≡ some session
    pub connection : Connection
    pub asked : asked_id env session request.service_id st.connections ≡ some connection
    pub pkce_secret_id : String
    pub secrets : S
    pub endpoint : String
    pub approved : Approved env session.organization_id request.service_id endpoint
    pub client_id : String
    pub parameters : List Param
    pub same_url : url ≡ authorization_url env request.service_id endpoint client_id parameters
    pub same_state :
        after ≡ issued env session request.service_id connection pkce_secret_id secrets st

  abbrev Issues : Option Reply → FlowState S → Type 0
  Issues reply after = (url : AuthorizationUrl) → reply ≡ some (authorization url) → Issue url after

  not_redirect :
      (status : ℕ) (text : String) (url : AuthorizationUrl)
      → some (refused status text) ≡ some (authorization url)
      → ⊥
  not_redirect status text url h = ground arith

  no_reply : (url : AuthorizationUrl) → none ≡ some (authorization url) → ⊥
  no_reply url h = ground arith

  same_authorization :
      (x y : AuthorizationUrl) → some (authorization x) ≡ some (authorization y) → x ≡ y
  same_authorization x y h = ground arith

  pub authorize-Issue :
      (url : AuthorizationUrl)
      → reply_of (authorize env (some request) st) ≡ some (authorization url)
      → Issue url (state_of (authorize env (some request) st))
  authorize-Issue =
      authorize_rule env Issues st request
        (λ status text url h. absurd (not_redirect status text url h))
        (λ session formed admitted. record {
          thrown = λ url h. absurd (no_reply url h);
          no_redirect = λ status text url h. absurd (not_redirect status text url h);
          redirect =
              λ endpoint client_id parameters connection pkce_secret_id secrets good asked url h.
                let e = same_authorization _ url h in
                (record {
                  session = session;
                  admitted = admitted;
                  connection = connection;
                  asked = asked;
                  pkce_secret_id = pkce_secret_id;
                  secrets = secrets;
                  endpoint = endpoint;
                  approved = good;
                  client_id = client_id;
                  parameters = parameters;
                  same_url = sym e;
                  same_state = refl;
                });
        })

-- The three last parameters, over those that are set before them.
abbrev signed : String → String → List Param → List Param
signed state challenge base =
    set_param "code_challenge_method" "S256"
      (set_param "code_challenge" challenge (set_param "state" state base))

param-signed :
    (state challenge : String) (base : List Param)
    → (param "state" (signed state challenge base)
        ≡ some (record { name = "state"; value = state }))
      × (param "code_challenge" (signed state challenge base)
          ≡ some (record { name = "code_challenge"; value = challenge }))
      × (param "code_challenge_method" (signed state challenge base)
          ≡ some (record { name = "code_challenge_method"; value = "S256" }))
param-signed state challenge base =
    let stated = set_param "state" state base in
    let challenged = set_param "code_challenge" challenge stated in
    (
      param-set_other "state" "code_challenge_method" "S256" challenged refl
          ∙ param-set_other "state" "code_challenge" challenge stated refl
          ∙ param-set_param "state" state base,
      param-set_other "code_challenge" "code_challenge_method" "S256" challenged refl
          ∙ param-set_param "code_challenge" challenge stated,
      param-set_param "code_challenge_method" "S256" challenged,
    )

-- The parameters that are set before.
abbrev unsigned :
    {S : Type 0} → FlowEnvironment S → String → String → String → List Param → List Param
unsigned env service_id endpoint client_id parameters = set_params parameters (
    set_param "response_type" "code" (
      set_param "redirect_uri" (oauth_callback_url env service_id)
        (set_param "client_id" client_id (env.query_of endpoint))))

authorization_url-signed :
    {S : Type 0} (env : FlowEnvironment S) (service_id endpoint client_id : String)
    (parameters : List Param)
    → let url = authorization_url env service_id endpoint client_id parameters in
      (url.endpoint ≡ endpoint)
      × (url.params
          ≡ signed env.state
              (env.code_challenge env.code_verifier)
              (unsigned env service_id endpoint client_id parameters))
unfolding authorization_url
authorization_url-signed env service_id endpoint client_id parameters = (refl, refl)

-- An authorization that answers with a URL was asked for under a usable session. The URL's endpoint is
-- approved for the service: of a tenant's server both endpoints are trusted under the provenance
-- stored with it, and another service's endpoint is validated. The URL carries the new state, and
-- the challenge of the new verifier under S256.
pub authorize-Approved :
    {S : Type 0} (env : FlowEnvironment S) (request : ConnectRequest) (st : FlowState S)
    (url : AuthorizationUrl)
    → reply_of (authorize env (some request) st) ≡ some (authorization url)
    → (session : ConnectSession) × (session_of env request st ≡ some session)
      × Approved env session.organization_id request.service_id url.endpoint
      × (param "state" url.params ≡ some (record { name = "state"; value = env.state }))
      × (param "code_challenge" url.params
          ≡ some (record { name = "code_challenge"; value = env.code_challenge env.code_verifier }))
      × (param "code_challenge_method" url.params
          ≡ some (record { name = "code_challenge_method"; value = "S256" }))
authorize-Approved env request st url h =
    let i = authorize-Issue env request st url h in
    let s = authorization_url-signed env request.service_id i.endpoint i.client_id i.parameters in
    let p =
      param-signed env.state (env.code_challenge env.code_verifier)
        (unsigned env request.service_id i.endpoint i.client_id i.parameters) in
    let e = ap (λ u. u.params) i.same_url ∙ s.1 in
    (
      i.session,
      i.admitted,
      subst (Approved env i.session.organization_id request.service_id)
          (sym (ap (λ u. u.endpoint) i.same_url ∙ s.0)) i.approved,
      ap (param "state") e ∙ p.0,
      ap (param "code_challenge") e ∙ p.1,
      ap (param "code_challenge_method") e ∙ p.2,
    )
