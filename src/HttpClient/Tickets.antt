-- ===== src/HttpClient/Tickets.antt =====
-- When the client logs in, and what its requests are sent with.
use pvetui.Base.{
  ℕ, suc, ◌+◌, [], ◌∷◌, ◌++◌, Option, none, some, true, false, Str, str, str_eq, str_eq_iff, ◌==◌,
  ==_iff, length, ◌⊎◌, inl, inr, ◌≡◌, ◌≢◌, refl, ap, ◌∙◌, arith, Bool-cases, Option-cases,
}
use pvetui.HttpClient.{
  AuthToken, AuthManager, HttpClient, Request, request_failed, login_not_parsed, Reply, no_response,
  response, Login, Environment, AuthError, bad_login_status, no_ticket, is_valid, hours, Traffic,
  request_not_created,
}
use pvetui.HttpClient.Exchange.{
  authenticate, get_valid_token, login_request, login_with, login_answered, logged_in, set_manager,
  set_token, cached_or,
}

module _ (env : Environment) where
  -- The time of the next request.
  abbrev pub now : Traffic → ℕ
  now t = env.clock (length t.sent)

  -- The manager has a valid ticket, and nothing is sent for it.
  abbrev pub Cached : Traffic → AuthManager → Type 0
  Cached t am =
      (token : AuthToken) × (am.auth_token ≡ some token)
      × (is_valid (some token) (now t) ≡ true)
      × (get_valid_token env t am ≡ (t, inr token))

  -- The request for a ticket: a POST of the form of the username and the password.
  abbrev pub ticket_post : HttpClient → AuthManager → Request
  ticket_post c am = record {
    method = str "POST";
    url = c.base_url ++ str "/access/ticket";
    headers =
        (str "Content-Type", str "application/x-www-form-urlencoded")
        ∷ (str "User-Agent", str "pvetui")
        ∷ [];
    body = some (env.encode_form am.username am.password);
  }

  abbrev pub NoTicket : Str ⊎ Login → AuthError → Type 0
  NoTicket (inl x) e = e ≡ login_not_parsed x
  NoTicket (inr login) e = (login.ticket ≡ []) × (e ≡ no_ticket)

  -- Why an answer to a login is an error.
  abbrev pub Refused : Reply → AuthError → Type 0
  Refused (no_response x) e = e ≡ request_failed x
  Refused (response code status body) e =
      ((code ≢ 200) × (e ≡ bad_login_status code status))
      ⊎ ((code ≡ 200) × NoTicket (env.decode_login body) e)

  abbrev pub HasTicket : Str ⊎ Login → AuthToken → Type 0
  HasTicket (inl x) token = ⊥
  HasTicket (inr login) token =
      (token.ticket ≡ login.ticket)
      × (token.csrf_token ≡ login.csrf_prevention_token)
      × (token.username ≡ login.username)

  -- The token is that of the answer, which is one of success.
  abbrev pub Granted : Reply → AuthToken → Type 0
  Granted (no_response x) token = ⊥
  Granted (response code status body) token = (code ≡ 200) × HasTicket (env.decode_login body) token

  -- A login fails, and the client is as before: the request cannot be created and nothing is sent, or it
  -- is sent and its answer is refused.
  abbrev pub LoginFails : Traffic → AuthManager → Type 0
  LoginFails t am =
      (e : AuthError) × ((get_valid_token env t am).1 ≡ inl e)
      × ((get_valid_token env t am).0.client ≡ t.client)
      × (((x : Str) × (env.request_error (str "POST") (t.client.base_url ++ str "/access/ticket")
              ≡ some x)
            × (e ≡ request_not_created x)
            × ((get_valid_token env t am).0.sent ≡ t.sent))
          ⊎ (Refused (env.send (length t.sent) (ticket_post t.client am)) e
              × ((get_valid_token env t am).0.sent ≡ t.sent ++ ticket_post t.client am ∷ [])))

  -- One login is sent, and the ticket of its answer, which is not empty and lasts for two hours, is kept.
  abbrev pub LoginSucceeds : Traffic → AuthManager → Type 0
  LoginSucceeds t am =
      (token : AuthToken) × Granted (env.send (length t.sent) (ticket_post t.client am)) token
      × (token.ticket ≢ [])
      × (token.expires_at ≡ env.clock (suc (length t.sent)) + hours 2)
      × (get_valid_token env t am ≡ (
        record {
          client = set_manager t.client (set_token am token);
          sent = t.sent ++ ticket_post t.client am ∷ [];
        },
        inr token,
      ))

  answer_cases :
      (time : ℕ) (reply : Reply)
      → ((e : AuthError) × (login_answered env time reply ≡ inl e) × Refused reply e)
        ⊎ ((token : AuthToken) × (login_answered env time reply ≡ inr token)
            × Granted reply token
            × (token.ticket ≢ [])
            × (token.expires_at ≡ time + hours 2))
  answer_cases time (no_response e) = inl (_, refl, refl)
  answer_cases time (response code status body) = elim (Bool-cases (code == 200)) [
    | inr n ↦ inl (bad_login_status code status, rw n refl, inl (other n, refl))
    | inl y ↦ rw y (parsed (env.decode_login body) ((==_iff code 200).0 y))
  ]
    where
      other : (code == 200) ≡ false → code ≢ 200
      other n e = ground arith

      parsed :
          (d : Str ⊎ Login)
          → code ≡ 200
          → ((e : AuthError) × (logged_in env time d ≡ inl e)
              × (((code ≢ 200) × (e ≡ bad_login_status code status))
                  ⊎ ((code ≡ 200) × NoTicket d e)))
            ⊎ ((token : AuthToken) × (logged_in env time d ≡ inr token)
                × ((code ≡ 200) × HasTicket d token)
                × (token.ticket ≢ [])
                × (token.expires_at ≡ time + hours 2))
      parsed (inl e) ok = inl (_, refl, inr (ok, refl))
      parsed (inr login) ok = elim (Bool-cases (str_eq login.ticket [])) [
        | inl y ↦ inl (no_ticket, rw y refl, inr (ok, ((str_eq_iff login.ticket []).0 y, refl)))
        | inr n ↦ rw n (inr (_, refl, (ok, (refl, refl, refl)), nonempty n, refl))
      ]
        where
          nonempty : str_eq login.ticket [] ≡ false → login.ticket ≢ []
          nonempty n = ground (arith, str_eq_iff login.ticket [])

  -- A manager with a password gives the ticket that it has while that is valid. Otherwise, where the
  -- request can be created, it posts its username and password once. Where the answer has the status 200
  -- and a ticket that is not empty, it keeps the ticket, the token and the username of that answer for
  -- two hours; else it fails with the reason that the answer gives, and the client is as before.
  pub get_valid_token_cases :
      (t : Traffic) (am : AuthManager)
      → am.token ≡ []
      → Cached t am
        ⊎ ((is_valid am.auth_token (now t) ≡ false) × (LoginFails t am ⊎ LoginSucceeds t am))
  unfolding get_valid_token authenticate
  get_valid_token_cases t am h = elim (Bool-cases (is_valid am.auth_token (now t))) [
    | inl y ↦ elim (Option-cases am.auth_token) [
      | inl e ↦ absurd (nothing (rw e at y))
      | inr (token, e) ↦ inl (token, e, rw e at y, rw (h, e, rw e at y) (unfold str_eq in refl))
    ]
    | inr n ↦ inr (n, by_login n)
  ]
    where
      nothing : false ≡ true → ⊥
      nothing q = cc

      skip :
          (login : Traffic × (AuthError ⊎ AuthToken)) (o : Option AuthToken)
          → cached_or env t o false login ≡ login
      skip login none = refl
      skip login (some token) = refl

      logs_in :
          is_valid am.auth_token (now t) ≡ false
          → get_valid_token env t am
            ≡ login_with env t am
                (env.request_error (str "POST") (t.client.base_url ++ str "/access/ticket"))
      logs_in n = rw (h, n) (unfold str_eq in skip _ am.auth_token ∙ skip _ am.auth_token)

      by_login : is_valid am.auth_token (now t) ≡ false → LoginFails t am ⊎ LoginSucceeds t am
      by_login n =
          elim (Option-cases
            (env.request_error (str "POST") (t.client.base_url ++ str "/access/ticket"))) [
              | inr (e, f) ↦ inl (
                request_not_created e,
                ap (λ r. r.1) (logs_in n) ∙ rw f refl,
                ap (λ r. r.0.client) (logs_in n) ∙ rw f refl,
                inl (e, f, refl, ap (λ r. r.0.sent) (logs_in n) ∙ rw f refl),
              )
              | inl f ↦
                  elim (answer_cases (env.clock (suc (length t.sent)))
                    (env.send (length t.sent) (login_request env t.client am))) [
                      | inl (e, a, why) ↦ inl (
                        e,
                        ap (λ r. r.1) (logs_in n) ∙ rw (f, a) refl,
                        ap (λ r. r.0.client) (logs_in n) ∙ rw (f, a) refl,
                        inr (why, ap (λ r. r.0.sent) (logs_in n) ∙ rw (f, a) refl),
                      )
                      | inr (token, a, granted, ticket, expires) ↦
                          inr (token, granted, ticket, expires, logs_in n ∙ rw (f, a) refl)
                    ]
            ]
