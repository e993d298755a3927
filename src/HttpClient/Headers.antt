-- ===== src/HttpClient/Headers.antt =====
-- What the headers of a request say of the client.
use pvetui.Base.{
  ℕ, [], ◌++◌, Option, none, some, true, not, ◌&&◌, ◌<◌, if◌then◌else◌, Dict, get, put, ◌≢◌, str,
  Str, str_eq, str_eq_iff, ◌⊎◌, inl, inr, ◌≡◌, refl, arith, Bool-cases,
}
use pvetui.HttpClient.{AuthToken, is_valid, write_method, Environment, Traffic}
use pvetui.HttpClient.Exchange.{
  Credentials, with_api_token, with_ticket, without, has_body, auth_headers, api_request,
}
use pvetui.HttpClient.Tickets.{now}
use pvetui.HttpClient.Authorized.{GoodNow}

module _ (env : Environment) where
  -- The headers say who the client is: the API token; or else a ticket that is not empty and has not
  -- expired, in the cookie, with its CSRF token in a request that writes; or nothing, where the client has
  -- neither an API token nor a manager.
  abbrev pub Authenticates : Traffic → Traffic → Str → Dict Str → Type 0
  Authenticates t t' method headers =
      ((t.client.api_token ≢ [])
        × (get (str "Authorization") headers ≡ some t.client.api_token)
        × (get (str "Cookie") headers ≡ none))
      ⊎ ((t.client.api_token ≡ [])
          × (token : AuthToken) × (token.ticket ≢ [])
          × (now env t' < token.expires_at)
          × (get (str "Authorization") headers ≡ none)
          × (get (str "Cookie") headers ≡ some (str "PVEAuthCookie=" ++ token.ticket))
          × (get (str "CSRFPreventionToken") headers ≡ (
              if write_method method && not (str_eq token.csrf_token [])
              then some token.csrf_token
              else none)))
      ⊎ ((t.client.api_token ≡ [])
          × (t.client.auth_manager ≡ none)
          × (get (str "Authorization") headers ≡ none)
          × (get (str "Cookie") headers ≡ none))

  usable :
      (token : AuthToken) (time : ℕ)
      → is_valid (some token) time ≡ true
      → (token.ticket ≢ []) × (time < token.expires_at)
  usable token time h =
      (λ e. ground (arith, str_eq_iff token.ticket []), ground (arith, str_eq_iff token.ticket []))

  pub authenticates :
      (t t' : Traffic) (method url : Str) (body : Option Str) (cred : Credentials)
      → GoodNow env t t' cred
      → Authenticates t t' method (api_request method url body cred).headers
  unfolding api_request auth_headers put get str_eq
  authenticates t t' method url body (with_api_token token) (e, n) =
      elim (Bool-cases (write_method method && has_body body)) [
        | inl y ↦ rw y (inl (rw (← e) n, rw e refl, refl))
        | inr y ↦ rw y (inl (rw (← e) n, rw e refl, refl))
      ]
  authenticates t t' method url body without (n, m) =
      elim (Bool-cases (write_method method && has_body body)) [
        | inl y ↦ rw y (inr (inr (n, m, refl, refl)))
        | inr y ↦ rw y (inr (inr (n, m, refl, refl)))
      ]
  authenticates t t' method url body (with_ticket token) (n, valid) =
      elim (Bool-cases (write_method method && has_body body)) [
        | inl y ↦ elim (Bool-cases (write_method method && not (str_eq token.csrf_token []))) [
          | inl w ↦
              rw (y, w)
                (inr (
                  inl (
                    n,
                    token,
                    (usable token (now env t') valid).0,
                    (usable token (now env t') valid).1,
                    refl,
                    refl,
                    rw w refl,
                  )))
          | inr w ↦
              rw (y, w)
                (inr (
                  inl (
                    n,
                    token,
                    (usable token (now env t') valid).0,
                    (usable token (now env t') valid).1,
                    refl,
                    refl,
                    rw w refl,
                  )))
        ]
        | inr y ↦ elim (Bool-cases (write_method method && not (str_eq token.csrf_token []))) [
          | inl w ↦
              rw (y, w)
                (inr (
                  inl (
                    n,
                    token,
                    (usable token (now env t') valid).0,
                    (usable token (now env t') valid).1,
                    refl,
                    refl,
                    rw w refl,
                  )))
          | inr w ↦
              rw (y, w)
                (inr (
                  inl (
                    n,
                    token,
                    (usable token (now env t') valid).0,
                    (usable token (now env t') valid).1,
                    refl,
                    refl,
                    rw w refl,
                  )))
        ]
      ]
