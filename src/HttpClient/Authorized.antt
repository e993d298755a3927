-- ===== src/HttpClient/Authorized.antt =====
-- What a request is sent with, and how many requests there are.
use pvetui.Base.{
  ℕ, suc, ◌+◌, ◌<◌, [], ◌∷◌, ◌++◌, Option, none, some, true, false, Str, str, str_eq, str_eq_iff,
  length, length-append, ◌⊎◌, inl, inr, ◌≡◌, ◌≢◌, refl, ◌∙◌, arith, Bool-cases,
}
use pvetui.HttpClient.{
  AuthToken, AuthManager, Request, Environment, AuthError, ApiError, is_valid, hours, Traffic,
}
use pvetui.HttpClient.Exchange.{
  Credentials, with_api_token, with_ticket, without, get_valid_token, login_request,
}
use pvetui.HttpClient.Requests.{credentials_for, manager_credentials, authenticated}
use pvetui.HttpClient.Tickets.{now, get_valid_token_cases}

module _ (env : Environment) where
  -- Nothing was sent, or one login.
  abbrev pub LoggedIn : Traffic → Traffic → Type 0
  LoggedIn t t' =
      (t'.sent ≡ t.sent)
      ⊎ ((am : AuthManager) × (t'.sent ≡ t.sent ++ login_request env t.client am ∷ []))

  -- The API token of the client; a ticket that is valid when the request is sent; nothing, where the
  -- client has nothing.
  abbrev pub GoodNow : Traffic → Traffic → Credentials → Type 0
  GoodNow t t' (with_api_token token) = (token ≡ t.client.api_token) × (token ≢ [])
  GoodNow t t' (with_ticket token) =
      (t.client.api_token ≡ []) × (is_valid (some token) (now env t') ≡ true)
  GoodNow t t' without = (t.client.api_token ≡ []) × (t.client.auth_manager ≡ none)

  valid_until :
      (ticket csrf username : Str) (time n : ℕ)
      → ticket ≢ []
      → 0 < n
      → is_valid
          (some (record {
            ticket = ticket;
            csrf_token = csrf;
            username = username;
            expires_at = time + n;
          }))
          time
        ≡ true
  valid_until ticket csrf username time n h k = ground (arith, str_eq_iff ticket [])

  abbrev pub Fine : Traffic → Traffic × (ApiError ⊎ Credentials) → Type 0
  Fine t (t', inl e) = LoggedIn t t'
  Fine t (t', inr cred) = LoggedIn t t' × GoodNow t t' cred

  failing :
      (t : Traffic) (r : Traffic × (AuthError ⊎ AuthToken)) (e : AuthError)
      → r.1 ≡ inl e
      → LoggedIn t r.0
      → Fine t (authenticated env r)
  failing t (t', inl x) e q l = l
  failing t (t', inr x) e q l = cc

  after_login :
      (t : Traffic) (am : AuthManager)
      → t.client.api_token ≡ []
      → am.token ≡ []
      → Fine t (authenticated env (get_valid_token env t am))
  after_login t am none_set h = elim (get_valid_token_cases env t am h) [
    | inl (token, e, valid, r) ↦ rw r (inl refl, (none_set, valid))
    | inr (stale, inl (e, r, c, inl (x, f, q, s))) ↦
        failing t (get_valid_token env t am) e r (inl s)
    | inr (stale, inl (e, r, c, inr (why, s))) ↦
        failing t (get_valid_token env t am) e r (inr (am, s))
    | inr (stale, inr (token, granted, ticket, expires, r)) ↦
        rw r (inr (am, refl), (none_set, fresh token ticket expires))
  ]
    where
      longer : (req : Request) → length (t.sent ++ req ∷ []) ≡ suc (length t.sent)
      longer req = length-append t.sent (req ∷ []) ∙ omega arith

      fresh :
          (token : AuthToken)
          → token.ticket ≢ []
          → token.expires_at ≡ env.clock (suc (length t.sent)) + hours 2
          → is_valid
              (some token)
              (env.clock (length (t.sent ++ login_request env t.client am ∷ [])))
            ≡ true
      fresh token ticket expires =
          rw (longer (login_request env t.client am), expires)
            (ground (arith, str_eq_iff token.ticket []))

  pub credentials-Fine : (t : Traffic) → Fine t (credentials_for env t)
  unfolding credentials_for get_valid_token
  credentials-Fine t = elim (Bool-cases (str_eq t.client.api_token [])) [
    | inr n ↦ rw n (inl refl, (refl, given t.client.api_token n))
    | inl y ↦ rw y (by_manager ((str_eq_iff t.client.api_token []).0 y) t.client.auth_manager refl)
  ]
    where
      given : (s : Str) → str_eq s [] ≡ false → s ≢ []
      given s n = ground (arith, str_eq_iff s [])

      by_manager :
          t.client.api_token ≡ []
          → (o : Option AuthManager) → t.client.auth_manager ≡ o
          → Fine t (manager_credentials env t o)
      by_manager none_set none e = (inl refl, (none_set, e))
      by_manager none_set (some am) e = elim (Bool-cases (str_eq am.token [])) [
        | inl y ↦ after_login t am none_set ((str_eq_iff am.token []).0 y)
        | inr n ↦ rw n (inl refl, (none_set, lasting (given am.token n)))
      ]
        where
          lasting :
              am.token ≢ []
              → is_valid
                  (some (record {
                    ticket = am.token;
                    csrf_token = [];
                    username = str "api-token";
                    expires_at = now env t + hours 24;
                  }))
                  (now env t)
                ≡ true
          lasting h =
              valid_until am.token [] (str "api-token") (now env t) (hours 24) h (omega arith)
