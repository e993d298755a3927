-- ===== src/HttpClient/Exchange.antt =====
-- What the client sends: a login, a request with its authentication, and the repetition of a request.
use pvetui.Base.{
  ℕ, suc, ◌+◌, [], ◌∷◌, ◌++◌, Option, none, some, Bool, true, false, not, ◌&&◌, ◌||◌, Str, str,
  str_eq, ltb, ◌==◌, if◌then◌else◌, Dict, put, length, ◌⊎◌, inl, inr,
}
use pvetui.HttpClient.{
  AuthToken, AuthManager, HttpClient, Request, Reply, no_response, response, Login, Environment,
  AuthError, request_not_created, request_failed, bad_login_status, login_not_parsed, no_ticket,
  ApiError, not_sent, not_read, token_refused, ticket_refused, bad_status, not_parsed, is_valid,
  clear_token, hours, Traffic, write_method,
}

abbrev pub set_manager : HttpClient → AuthManager → HttpClient
set_manager c am = record c { auth_manager = some am }

abbrev pub set_token : AuthManager → AuthToken → AuthManager
set_token am t = record am { auth_token = some t }

-- The headers of a request before its authentication.
abbrev pub common_headers : Dict Str
common_headers = (str "User-Agent", str "pvetui") ∷ (str "Accept", str "application/json") ∷ []

-- How a request goes out: with an API token, with a ticket, or without anything.
pub data Credentials : Type 0 where
  with_api_token : Str → Credentials
  with_ticket : AuthToken → Credentials
  without : Credentials

unfoldable pub auth_headers : Credentials → Str → Dict Str → Dict Str
unfolding put
auth_headers (with_api_token t) method headers = put (str "Authorization") t headers
auth_headers (with_ticket t) method headers =
    let headers' = put (str "Cookie") (str "PVEAuthCookie=" ++ t.ticket) headers in
    if write_method method && not (str_eq t.csrf_token [])
    then put (str "CSRFPreventionToken") t.csrf_token headers'
    else headers'
auth_headers without method headers = headers

abbrev pub has_body : Option Str → Bool
has_body none = false
has_body (some json) = true

unfoldable pub api_request : Str → Str → Option Str → Credentials → Request
unfolding auth_headers put
api_request method url body credentials =
    let headers = auth_headers credentials method common_headers in
    record {
      method = method;
      url = url;
      headers =
          if write_method method && has_body body
          then put (str "Content-Type") (str "application/json") headers
          else headers;
      body = body;
    }

module _ (env : Environment) where
  abbrev pub login_request : HttpClient → AuthManager → Request
  login_request c am = record {
    method = str "POST";
    url = c.base_url ++ str "/access/ticket";
    headers =
        (str "Content-Type", str "application/x-www-form-urlencoded")
        ∷ (str "User-Agent", str "pvetui")
        ∷ [];
    body = some (env.encode_form am.username am.password);
  }

  -- The answer is parsed.
  abbrev pub logged_in : ℕ → Str ⊎ Login → AuthError ⊎ AuthToken
  logged_in now (inl e) = inl (login_not_parsed e)
  logged_in now (inr login) =
      if str_eq login.ticket []
      then inl no_ticket
      else inr (record {
        ticket = login.ticket;
        csrf_token = login.csrf_prevention_token;
        username = login.username;
        expires_at = now + hours 2;
      })

  abbrev pub login_answered : ℕ → Reply → AuthError ⊎ AuthToken
  login_answered now (no_response e) = inl (request_failed e)
  login_answered now (response code status body) =
      if code == 200
      then logged_in now (env.decode_login body)
      else inl (bad_login_status code status)

  -- A token that was received is kept in the manager.
  abbrev pub keep_token :
      Traffic → AuthManager → Request → AuthError ⊎ AuthToken → Traffic × (AuthError ⊎ AuthToken)
  keep_token t am req (inl e) = (record t { sent = t.sent ++ req ∷ [] }, inl e)
  keep_token t am req (inr token) = (
    record { client = set_manager t.client (set_token am token); sent = t.sent ++ req ∷ [] },
    inr token,
  )

  abbrev pub login_with : Traffic → AuthManager → Option Str → Traffic × (AuthError ⊎ AuthToken)
  login_with t am (some e) = (t, inl (request_not_created e))
  login_with t am none =
      let req = login_request t.client am in
      keep_token t am req
        (login_answered (env.clock (suc (length t.sent))) (env.send (length t.sent) req))

  abbrev pub cached_or :
      Traffic
      → Option AuthToken
      → Bool
      → Traffic × (AuthError ⊎ AuthToken)
      → Traffic × (AuthError ⊎ AuthToken)
  cached_or t (some token) true login = (t, inr token)
  cached_or t (some token) false login = login
  cached_or t none valid login = login

  unfoldable pub authenticate : Traffic → AuthManager → Traffic × (AuthError ⊎ AuthToken)
  authenticate t am =
      cached_or t am.auth_token (is_valid am.auth_token (env.clock (length t.sent))) (
        login_with t am
          (env.request_error (str "POST") (t.client.base_url ++ str "/access/ticket")))

  unfoldable pub get_valid_token : Traffic → AuthManager → Traffic × (AuthError ⊎ AuthToken)
  unfolding authenticate
  get_valid_token t am =
      if not (str_eq am.token [])
      then (
        t,
        inr (record {
          ticket = am.token;
          csrf_token = [];
          username = str "api-token";
          expires_at = env.clock (length t.sent) + hours 24;
        }),
      )
      else cached_or t am.auth_token (is_valid am.auth_token (env.clock (length t.sent)))
          (authenticate t am)

  -- The result of a request with a result to fill: the body that was parsed into it, none for no result.
  abbrev pub parsed : Bool → Str → ApiError ⊎ Option Str
  parsed false body = inr none
  parsed true body = elim (env.unmarshal body) [
    | none ↦ inr (some body)
    | some e ↦ inl (not_parsed e)
  ]

  abbrev pub with_status : Bool → ℕ → Str → ApiError ⊎ Option Str
  with_status wants code body =
      if ltb code 200 || not (ltb code 300) then inl (bad_status code body) else parsed wants body

  -- After the body is read; 401 clears the ticket.
  abbrev pub received : HttpClient → Bool → ℕ → Str → Str → HttpClient × (ApiError ⊎ Option Str)
  received c wants code status body =
      if code == 401
      then if not (str_eq c.api_token [])
        then (c, inl (token_refused status))
        else elim c.auth_manager [
          | none ↦ (c, with_status wants code body)
          | some am ↦ (set_manager c (clear_token am), inl (ticket_refused status))
        ]
      else (c, with_status wants code body)

  abbrev pub replied : HttpClient → Bool → Reply → HttpClient × (ApiError ⊎ Option Str)
  replied c wants (no_response e) = (c, inl (not_sent e))
  replied c wants (response code status (inl e)) = (c, inl (not_read e))
  replied c wants (response code status (inr body)) = received c wants code status body
