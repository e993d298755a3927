-- ===== src/HttpClient/Sending.antt =====
-- What one request and its repetition send.
use pvetui.Base.{
  ℕ, zero, suc, ◌+◌, ◌*◌, ◌≤◌, [], ◌∷◌, ◌++◌, Option, none, some, Bool, Str, str_eq, length,
  length-append, ◌⊎◌, inl, inr, ◌≡◌, refl, arith, Bool-cases, Option-cases,
}
use pvetui.HttpClient.{
  Request, AuthManager, response, Environment, ApiError, clear_token, Traffic, ticket_refused,
  full_url, body_of, not_marshalled, not_created, should_retry,
}
use pvetui.HttpClient.Exchange.{Credentials, api_request, login_request}
use pvetui.HttpClient.Requests.{
  credentials_for, execute_request, send_with, Outcome, Result, with_body, attempt_from,
  do_request_with_retry, after_attempt, after_pause, pause_error,
}
use pvetui.HttpClient.Headers.{Authenticates}
use pvetui.HttpClient.Authorized.{LoggedIn, GoodNow, Fine, credentials-Fine}

module _ (env : Environment) where
  -- The request did not go out: it fails, with a login sent at most.
  abbrev pub NotSent : Traffic → Traffic × Outcome env → Type 0
  NotSent t r = LoggedIn env t r.0 × ((e : ApiError) × (r.1 ≡ inl e))

  -- The request went out after a login at most, with credentials that are good at that time.
  abbrev SentWith : Traffic → Str → Str → Option (Str ⊎ Str) → Traffic × Outcome env → Type 0
  SentWith t method path payload r =
      (t' : Traffic) × (cred : Credentials) × (body : Option Str) × (body_of payload ≡ inr body)
      × LoggedIn env t t'
      × GoodNow env t t' cred
      × (r.0.sent ≡ t'.sent ++ api_request method (full_url t.client.base_url path) body cred ∷ [])

  execute_request_sends :
      (t : Traffic) (method path : Str) (payload : Option (Str ⊎ Str)) (wants : Bool)
      → let r = execute_request env t method path payload wants in
        NotSent t r ⊎ SentWith t method path payload r
  unfolding execute_request
  execute_request_sends t method path payload wants = by_body (body_of payload) refl
    where
      by_credentials :
          (body : Option Str)
          → body_of payload ≡ inr body
          → (c : Traffic × (ApiError ⊎ Credentials)) → Fine env t c
          → let r = send_with env method (full_url t.client.base_url path) body wants c in
            NotSent t r ⊎ SentWith t method path payload r
      by_credentials body q (t', inl e) l = inl (l, (e, refl))
      by_credentials body q (t', inr cred) (l, g) = inr (t', cred, body, q, l, g, refl)

      by_body :
          (b : Str ⊎ Option Str)
          → body_of payload ≡ b
          → let r = with_body env t method (full_url t.client.base_url path) wants b in
            NotSent t r ⊎ SentWith t method path payload r
      by_body (inl e) q = inl (inl refl, (not_marshalled e, refl))
      by_body (inr body) q =
          elim (Option-cases (env.request_error method (full_url t.client.base_url path))) [
            | inr (e, f) ↦ rw f (inl (inl refl, (not_created e, refl)))
            | inl f ↦ rw f (by_credentials body q (credentials_for env t) (credentials-Fine env t))
          ]

  -- One request went out after a login at most, of the method, the address and the body of the call.
  abbrev pub SentGood : Traffic → Str → Str → Option (Str ⊎ Str) → Traffic × Outcome env → Type 0
  SentGood t method path payload r =
      (t' : Traffic) × (req : Request) × LoggedIn env t t'
      × (r.0.sent ≡ t'.sent ++ req ∷ [])
      × (req.method ≡ method)
      × (req.url ≡ full_url t.client.base_url path)
      × (body_of payload ≡ inr req.body)
      × Authenticates env t t' method req.headers

  one_more : (t t' : Traffic) → LoggedIn env t t' → length t'.sent ≤ length t.sent + 1
  one_more t t' (inl e) = rw e (omega arith)
  one_more t t' (inr (am, e)) =
      rw (e, length-append t.sent (login_request env t.client am ∷ [])) (omega arith)

  two_more :
      (t : Traffic) (method path : Str) (payload : Option (Str ⊎ Str)) (wants : Bool)
      → length (execute_request env t method path payload wants).0.sent ≤ length t.sent + 2
  two_more t method path payload wants = elim (execute_request_sends t method path payload wants) [
    | inl (l, e) ↦
        let h = one_more t (execute_request env t method path payload wants).0 l in omega (arith, h)
    | inr (t', cred, body, q, l, g, e) ↦
        rw
          (
            e,
            length-append t'.sent
                (api_request method (full_url t.client.base_url path) body cred ∷ []),
          )
          (let h = one_more t t' l in omega (arith, h))
  ]

  attempts_bound :
      (left attempt : ℕ) (t : Traffic) (method path : Str) (payload : Option (Str ⊎ Str))
      (wants : Bool) (max_retries : ℕ) (last : Option ApiError)
      → length (attempt_from env left attempt t method path payload wants max_retries last).0.sent
        ≤ length t.sent + 2 * left
  unfolding attempt_from
  attempts_bound zero attempt t method path payload wants max_retries last = omega arith
  attempts_bound (suc left) attempt t method path payload wants max_retries last =
      by_pause
        (λ t' e.
          attempts_bound left (suc attempt) t' method path payload wants max_retries (some e))
        (pause_error env attempt (length t.sent))
    where
      next : Traffic → ApiError → Traffic × Result env
      next t' e =
          attempt_from env left (suc attempt) t' method path payload wants max_retries (some e)

      Bounded : Type 0
      Bounded =
          (t' : Traffic) (e : ApiError) → length (next t' e).0.sent ≤ length t'.sent + 2 * left

      by_outcome :
          Bounded
          → (r : Traffic × Outcome env) → length r.0.sent ≤ length t.sent + 2
          → length (after_attempt env max_retries attempt r next).0.sent
            ≤ length t.sent + 2 * suc left
      by_outcome k (t', inr result) h = omega (arith, h)
      by_outcome k (t', inl e) h = elim (Bool-cases (should_retry e attempt max_retries)) [
        | inl y ↦ rw y (let m = k t' e in omega (arith, h, m))
        | inr n ↦ rw n (omega (arith, h))
      ]

      by_pause :
          Bounded
          → (p : Option Str)
          → length
              (after_pause env t p (
                after_attempt env max_retries attempt
                  (execute_request env t method path payload wants)
                  next)).0.sent
            ≤ length t.sent + 2 * suc left
      by_pause k (some e) = omega arith
      by_pause k none =
          by_outcome k (execute_request env t method path payload wants)
            (two_more t method path payload wants)

  -- A request with a number of attempts sends at most twice that many requests, logins included.
  pub do_request_with_retry_bound :
      (t : Traffic) (method path : Str) (payload : Option (Str ⊎ Str)) (wants : Bool)
      (max_retries : ℕ)
      → length (do_request_with_retry env t method path payload wants max_retries).0.sent
        ≤ length t.sent + 2 * max_retries
  unfolding do_request_with_retry
  do_request_with_retry_bound t method path payload wants max_retries =
      attempts_bound max_retries 1 t method path payload wants max_retries none

  -- A ticket that the server refuses with 401 is forgotten, and the request fails.
  execute_request_refused :
      (t t' : Traffic) (method path status answer : Str) (payload : Option (Str ⊎ Str))
      (wants : Bool) (body : Option Str) (cred : Credentials) (am : AuthManager)
      → body_of payload ≡ inr body
      → env.request_error method (full_url t.client.base_url path) ≡ none
      → credentials_for env t ≡ (t', inr cred)
      → t'.client.api_token ≡ []
      → t'.client.auth_manager ≡ some am
      → env.send (length t'.sent) (api_request method (full_url t.client.base_url path) body cred)
        ≡ response 401 status (inr answer)
      → let r = execute_request env t method path payload wants in
        (r.1 ≡ inl (ticket_refused status)) × (r.0.client.auth_manager ≡ some (clear_token am))
  unfolding execute_request
  execute_request_refused t t' method path status answer payload wants body cred am b f c none_set m
        s =
      rw (b, f, c, s, none_set, m) (unfold str_eq in (refl, refl))
