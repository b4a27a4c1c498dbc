-- ===== src/Salesforce/Exchange/Requests.antt =====
-- The requests that an exchange sends.
use duckdb_data.Json.{Json}
use duckdb_data.Pkce.Origin.{validate_salesforce_login_origin}
use duckdb_data.Pkce.Token.{OauthTokenResponse}
use duckdb_data.Query.Types.{HttpRequest}
use duckdb_data.Registry.State.{AuthCompletionMaterial}
use duckdb_data.Salesforce.Types.{OauthExchangeOptions, Provider, Trace, chain}
use duckdb_data.Salesforce.Exchange.{
  oauth_request, data360_request, is_client_id, send_sanitized, validate_login, exchange_code,
  exchange_token, issue, exchange_with, exchange,
}
use duckdb_data.Salesforce.Exchange.Chain.{chain_holds}
use duckdb_data.Salesforce.Token.{Data360Response}
use duckdb_data.Base.{
  ℕ, suc, ◌≡◌, sym, ap, ◌∙◌, subst, ◌⊎◌, inl, inr, true, List, [], ◌∷◌, arith, Bytes, ok,
}
use duckdb_data.Salesforce.Exchange.Posts.{
  IsCodeRequest, IsTokenRequest, oauth_request-IsCodeRequest, data360_request-IsTokenRequest,
}
use duckdb_data.Salesforce.Exchange.Answers.{IsSalesforceUrl, IsAnswer, exchange_code_ok}

module _ {V : Type 0} (json : Json V) (provider : Provider) (options : OauthExchangeOptions) where
  -- The requests are none, or the code's request to the login's origin, or that and then the
  -- request of the token that was answered to it.
  abbrev pub AreExchange : ℕ → AuthCompletionMaterial → List HttpRequest → Type 0
  AreExchange turn material sent =
      (sent ≡ [])
      ⊎ ((origin : Bytes) × (validate_salesforce_login_origin material.login_origin ≡ ok origin)
          × (is_client_id material.client_id ≡ true)
          × ((q : HttpRequest) × IsCodeRequest options origin material q
              × ((sent ≡ q ∷ [])
                  ⊎ ((answer : OauthTokenResponse) × IsAnswer json provider options (suc turn) q
                        answer
                      × IsSalesforceUrl answer.instance_url
                      × ((r : HttpRequest) × IsTokenRequest options answer r
                          × (sent ≡ r ∷ q ∷ []))))))

  validate_login_sent :
      (login_origin client_id : Bytes) (w : Trace)
      → (validate_login json provider options login_origin client_id w).1.sent ≡ w.sent
  unfolding validate_login
  validate_login_sent login_origin client_id w = ground arith

  validate_login_ok :
      (login_origin client_id origin : Bytes) (w : Trace)
      → (validate_login json provider options login_origin client_id w).0 ≡ ok origin
      → (validate_salesforce_login_origin login_origin ≡ ok origin)
        × (is_client_id client_id ≡ true)
  unfolding validate_login
  validate_login_ok login_origin client_id origin w h = (ground (arith, h), ground (arith, h))

  validate_login_turn :
      (login_origin client_id origin : Bytes) (w : Trace)
      → (validate_login json provider options login_origin client_id w).0 ≡ ok origin
      → (validate_login json provider options login_origin client_id w).1.turn ≡ suc w.turn
  unfolding validate_login
  validate_login_turn login_origin client_id origin w h = ground (arith, h)

  exchange_code_sent :
      (origin client_id : Bytes) (material : AuthCompletionMaterial) (w : Trace)
      → (exchange_code json provider options origin client_id material w).1.sent
        ≡ oauth_request options origin client_id material ∷ w.sent
  unfolding exchange_code send_sanitized
  exchange_code_sent origin client_id material w = ground arith

  exchange_token_sent :
      (salesforce : OauthTokenResponse) (w : Trace)
      → (exchange_token json provider options salesforce w).1.sent
        ≡ data360_request options salesforce ∷ w.sent
  unfolding exchange_token send_sanitized
  exchange_token_sent salesforce w = ground arith

  issue_sent :
      (parsed : Data360Response) (w : Trace)
      → (issue json provider options parsed w).1.sent ≡ w.sent
  unfolding issue
  issue_sent parsed w = ground arith

  module _ (material : AuthCompletionMaterial) (turn : ℕ) where
    exchange_token_requests :
        (origin : Bytes) (answer : OauthTokenResponse) (w : Trace)
        → validate_salesforce_login_origin material.login_origin ≡ ok origin
        → is_client_id material.client_id ≡ true
        → IsAnswer json provider options
            (suc turn)
            (oauth_request options origin material.client_id material)
            answer
        → IsSalesforceUrl answer.instance_url
        → w.sent ≡ oauth_request options origin material.client_id material ∷ []
        → AreExchange turn material
            (chain
              (exchange_token json provider options answer w)
              (issue json provider options)).1.sent
    exchange_token_requests origin answer w o c a v e =
        let q = oauth_request options origin material.client_id material in
        let r = data360_request options answer in
        let token = exchange_token_sent answer w ∙ ap (λ s. r ∷ s) e in
        let done : (x : Trace) → x.sent ≡ r ∷ q ∷ [] → AreExchange turn material x.sent = λ x p.
          inr (
            origin,
            o,
            c,
            (
              q,
              oauth_request-IsCodeRequest options origin material,
              inr (answer, a, v, (r, data360_request-IsTokenRequest options answer, p)),
            ),
          ) in
        chain_holds (λ x. AreExchange turn material x.sent)
          (exchange_token json provider options answer w) (issue json provider options)
          (done (exchange_token json provider options answer w).1 token)
          (λ parsed h p.
            subst (AreExchange turn material)
              (sym (issue_sent parsed (exchange_token json provider options answer w).1)) p)

    exchange_code_requests :
        (origin : Bytes) (w : Trace)
        → validate_salesforce_login_origin material.login_origin ≡ ok origin
        → is_client_id material.client_id ≡ true
        → w.turn ≡ suc turn
        → w.sent ≡ []
        → AreExchange turn material
            (chain
              (exchange_code json provider options origin material.client_id material w)
              (λ answer v.
                chain
                  (exchange_token json provider options answer v)
                  (issue json provider options))).1.sent
    exchange_code_requests origin w o c t e =
        let q = oauth_request options origin material.client_id material in
        let x = exchange_code json provider options origin material.client_id material w in
        let code = exchange_code_sent origin material.client_id material w ∙ ap (λ s. q ∷ s) e in
        chain_holds (λ v. AreExchange turn material v.sent) x
          (λ answer v.
            chain (exchange_token json provider options answer v) (issue json provider options))
          (inr (origin, o, c, (q, oauth_request-IsCodeRequest options origin material, inl code)))
          (λ answer h p.
            let (a, v) =
              exchange_code_ok json provider options origin material.client_id material answer w
                h in
            exchange_token_requests origin answer x.1 o c
              (subst (λ n. IsAnswer json provider options n q answer) t a) v code)

    -- Whatever the transport answers, an exchange sends at most two requests, both POSTs that follow
    -- no redirect and carry no Authorization header, and none before the login's origin and the
    -- client's identifier are valid. The first goes to the token endpoint of that origin, and its form
    -- is the client, the fixed callback, the authorization code and the verifier. The second is sent
    -- only when the first was answered with a success that holds a token; it goes to the instance
    -- named in that answer, a plain https host below salesforce.com, and its form is that token.
    pub exchange_requests :
        AreExchange turn material
          (exchange json provider options material (record { turn = turn; sent = [] })).1.sent
    unfolding exchange exchange_with
    exchange_requests =
        let w : Trace = record { turn = turn; sent = [] } in
        let x = validate_login json provider options material.login_origin material.client_id w in
        let none_sent = validate_login_sent material.login_origin material.client_id w in
        chain_holds (λ v. AreExchange turn material v.sent) x _ (inl none_sent)
          (λ origin h p.
            let valid = validate_login_ok material.login_origin material.client_id origin w h in
            exchange_code_requests origin x.1 valid.0 valid.1
              (validate_login_turn material.login_origin material.client_id origin w h) none_sent)
