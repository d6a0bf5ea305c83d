-- ===== src/Flow/SingleUse.antt =====
-- A state can be used once.
use authlane.Prelude.{
  ℕ, ◌≤◌, ◌≡◌, refl, inl, inr, String, true, false, not, List, [], ◌∷◌, get_or, All, All-filter,
  find-eq-none, Bool-cases, Option-cases, ◌==◌, arith,
}
use authlane.Store.Rows.{update_where}
use authlane.Store.Keyed.{find-none}
use authlane.Flow.Tables.{OauthTransaction}
use authlane.Flow.Types.{FlowState, FlowEnvironment, answered, state_of, refused}
use authlane.Flow.Resolution.{falsy}
use authlane.Flow.Callback.{
  CallbackQuery, is_well_formed, is_redeemable, consume, redeemable, redeemed, redeem, callback,
  complete,
}
use authlane.Flow.Rules.{complete_rule, Answers, spent}

abbrev Dead : String → String → ℕ → OauthTransaction → Type 0
Dead service_id hash now t = is_redeemable service_id hash now t ≡ false

later-Dead :
    (service_id hash : String) (now later : ℕ) (t : OauthTransaction)
    → now ≤ later
    → Dead service_id hash now t
    → Dead service_id hash later t
unfolding is_redeemable
later-Dead service_id hash now later t order h = ground arith

consume-Dead :
    (service_id hash : String) (now later : ℕ) (t : OauthTransaction)
    → Dead service_id hash later (consume now t)
unfolding is_redeemable
consume-Dead service_id hash now later t = ground arith

consumed-Dead :
    (service_id hash : String) (now later : ℕ) (rows : List OauthTransaction)
    → now ≤ later
    → All
        (Dead service_id hash later)
        (update_where (is_redeemable service_id hash now) (consume now) rows)
consumed-Dead service_id hash now later [] order = tt
consumed-Dead service_id hash now later (t ∷ ts) order =
    elim (Bool-cases (is_redeemable service_id hash now t)) [
      | inl e ↦ rw e (
        consume-Dead service_id hash now later t,
        consumed-Dead service_id hash now later ts order,
      )
      | inr e ↦ rw e (
        later-Dead service_id hash now later t order e,
        consumed-Dead service_id hash now later ts order,
      )
    ]

later_rows-Dead :
    (service_id hash : String) (now later : ℕ) (rows : List OauthTransaction)
    → now ≤ later
    → All (Dead service_id hash now) rows
    → All (Dead service_id hash later) rows
later_rows-Dead service_id hash now later [] order h = tt
later_rows-Dead service_id hash now later (t ∷ ts) order h = (
  later-Dead service_id hash now later t order h.0,
  later_rows-Dead service_id hash now later ts order h.1,
)

module _ {S : Type 0} (env : FlowEnvironment S) where
  complete-Dead :
      (service_id hash : String) (later : ℕ) (t : OauthTransaction) (code : String)
      (st : FlowState S)
      → All (Dead service_id hash later) st.transactions
      → All (Dead service_id hash later) (state_of (complete env t code st)).transactions
  complete-Dead service_id hash later t code st h =
      complete_rule env (λ reply after. All (Dead service_id hash later) after.transactions) t code
        st h (λ status text. h) (λ connection found secrets. answers connection secrets)
    where
      gone : (secrets : S) → All (Dead service_id hash later) (spent t secrets st).transactions
      gone secrets =
          All-filter (Dead service_id hash later)
            (λ other. not (other.pkce_secret_id == t.pkce_secret_id)) st.transactions h

      answers :
          (c : _) (secrets : S)
          → Answers env
              (λ reply after. All (Dead service_id hash later) after.transactions)
              c
              t.service_id
              st
              (spent t secrets st)
      answers c secrets = record {
        thrown = h;
        lost = h;
        kept = λ text. gone secrets;
        failed = λ text code. gone secrets;
        done = λ left secret_id expires_at e. gone secrets;
      }

  redeem-Dead :
      (service_id code state : String) (later : ℕ) (st : FlowState S)
      → env.now ≤ later
      → All
          (Dead service_id (env.hash_api_key state) later)
          (state_of (redeem env service_id code state st)).transactions
  unfolding redeem
  redeem-Dead service_id code state later st order =
      let hash = env.hash_api_key state in
      elim (Option-cases (redeemable env service_id state st.transactions)) [
        | inl e ↦
            rw (e, redeem)
              (later_rows-Dead service_id hash env.now later st.transactions order
                (find-none (is_redeemable service_id hash env.now) st.transactions e))
        | inr (t, e) ↦
            rw (e, redeem)
              (complete-Dead service_id hash later (consume env.now t) code
                (redeemed env service_id state st)
                (consumed-Dead service_id hash env.now later st.transactions order))
      ]

  unredeemable_refused :
      (query : CallbackQuery) (st : FlowState S)
      → All
          (Dead query.service_id (env.hash_api_key (get_or query.state "")) env.now)
          st.transactions
      → (text : String) × (callback env query st ≡ answered (refused 400 text) st)
  unfolding callback redeem
  unredeemable_refused query st h = elim (Bool-cases (falsy query.error)) [
    | inr e ↦ rw (e, callback) (_, refl)
    | inl e ↦
        rw (e, callback)
          (elim (Bool-cases (is_well_formed env.demo query)) [
            | inr f ↦ rw f (_, refl)
            | inl f ↦
                rw
                  (
                    f,
                    redeem,
                    find-eq-none
                        (is_redeemable query.service_id (env.hash_api_key (get_or query.state ""))
                          env.now)
                        st.transactions h,
                  )
                  (_, refl)
          ])
  ]

-- Whatever became of a callback that had a code, a state and no error, even if it threw: a later
-- callback with the same state and service is refused, and changes nothing.
pub callback-refused :
    {S : Type 0} (env again : FlowEnvironment S) (query repeated : CallbackQuery) (st : FlowState S)
    → env.now ≤ again.now
    → again.hash_api_key (get_or repeated.state "") ≡ env.hash_api_key (get_or query.state "")
    → repeated.service_id ≡ query.service_id
    → falsy query.error ≡ true
    → is_well_formed env.demo query ≡ true
    → let after = state_of (callback env query st) in
      (text : String) × (callback again repeated after ≡ answered (refused 400 text) after)
unfolding callback redeem
callback-refused env again query repeated st order same_state same_service e f =
    unredeemable_refused again repeated _ (
      rw (e, f, callback, same_service, same_state)
        (redeem-Dead env query.service_id (get_or query.code "") (get_or query.state "") again.now
          st order))
