-- ===== src/Connect/Tests.antt =====
-- Runs on concrete sessions, and the theorems at concrete inputs.
use authlane.Prelude.{◌≡◌, refl, false, some, [], ◌∷◌, units}
use authlane.Prelude.Json.{arr, nil}
use authlane.Connect.Session.{
  is_usable_connect_session, is_service_text, is_valid_service_id, resolve_allowed_service_snapshot,
}

sessions : Unit {0}
unfolding is_usable_connect_session is_service_text is_valid_service_id
    resolve_allowed_service_snapshot units
sessions = tt

-- A request for nothing takes every enabled service once.
snapshot :
    resolve_allowed_service_snapshot (λ a b. false) (arr nil) ("slack" ∷ "github" ∷ "slack" ∷ [])
    ≡ some ("slack" ∷ "github" ∷ [])
unfolding sessions
snapshot = refl
