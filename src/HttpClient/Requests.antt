-- ===== src/HttpClient/Requests.antt =====
-- One request, and its repetition.
use pvetui.Base.{
  ℕ, zero, suc, [], ◌∷◌, ◌++◌, Option, none, some, Bool, not, Str, str_eq, if◌then◌else◌, length,
  ltb, ◌⊎◌, inl, inr,
}
use pvetui.HttpClient.{
  AuthToken, AuthManager, HttpClient, Request, Environment, AuthError, ApiError, not_marshalled,
  not_created, not_authenticated, should_retry, Traffic, full_url, body_of,
}
use pvetui.HttpClient.Exchange.{
  Credentials, with_api_token, with_ticket, without, api_request, get_valid_token, replied,
}

-- The context was done during a pause, or the last attempt failed: with nothing, where there was none.
pub data RetryError : Type 0 where
  stopped : Str → RetryError
  gave_up : ℕ → Option ApiError → RetryError

module _ (env : Environment) where
  abbrev pub Outcome : Type 0
  Outcome = ApiError ⊎ Option Str

  -- What a request goes out with, or the error of the login.
  abbrev pub authenticated : Traffic × (AuthError ⊎ AuthToken) → Traffic × (ApiError ⊎ Credentials)
  authenticated (t, inl e) = (t, inl (not_authenticated e))
  authenticated (t, inr token) = (t, inr (with_ticket token))

  abbrev pub manager_credentials : Traffic → Option AuthManager → Traffic × (ApiError ⊎ Credentials)
  manager_credentials t none = (t, inr without)
  manager_credentials t (some am) = authenticated (get_valid_token env t am)

  unfoldable pub credentials_for : Traffic → Traffic × (ApiError ⊎ Credentials)
  unfolding get_valid_token
  credentials_for t =
      if not (str_eq t.client.api_token [])
      then (t, inr (with_api_token t.client.api_token))
      else manager_credentials t t.client.auth_manager

  abbrev pub record_reply : Traffic → Request → HttpClient × Outcome → Traffic × Outcome
  record_reply t req (c, outcome) = (record { client = c; sent = t.sent ++ req ∷ [] }, outcome)

  abbrev pub send_with :
      Str → Str → Option Str → Bool → Traffic × (ApiError ⊎ Credentials) → Traffic × Outcome
  send_with method url body wants (t, inl e) = (t, inl e)
  send_with method url body wants (t, inr credentials) =
      let req = api_request method url body credentials in
      record_reply t req (replied env t.client wants (env.send (length t.sent) req))

  abbrev pub create_with : Traffic → Str → Str → Bool → Option Str → Option Str → Traffic × Outcome
  create_with t method url wants body (some e) = (t, inl (not_created e))
  create_with t method url wants body none = send_with method url body wants (credentials_for t)

  abbrev pub with_body : Traffic → Str → Str → Bool → Str ⊎ Option Str → Traffic × Outcome
  with_body t method url wants (inl e) = (t, inl (not_marshalled e))
  with_body t method url wants (inr body) =
      create_with t method url wants body (env.request_error method url)

  -- `payload` is what json.Marshal answers for the data, where there is any, and `wants` says whether the
  -- caller gives a result to fill.
  unfoldable pub execute_request :
      Traffic → Str → Str → Option (Str ⊎ Str) → Bool → Traffic × Outcome
  unfolding credentials_for api_request
  execute_request t method path payload wants =
      with_body t method (full_url t.client.base_url path) wants (body_of payload)

  abbrev pub Result : Type 0
  Result = RetryError ⊎ Option Str

  -- The context, which is asked before every attempt but the first one.
  abbrev pub pause_error : ℕ → ℕ → Option Str
  pause_error attempt sent = if ltb 1 attempt then env.cancelled sent else none

  abbrev pub after_pause : Traffic → Option Str → Traffic × Result → Traffic × Result
  after_pause t (some e) next = (t, inl (stopped e))
  after_pause t none next = next

  abbrev pub after_attempt :
      ℕ → ℕ → Traffic × Outcome → (Traffic → ApiError → Traffic × Result) → Traffic × Result
  after_attempt max_retries attempt (t, inr result) next = (t, inr result)
  after_attempt max_retries attempt (t, inl e) next =
      if should_retry e attempt max_retries
      then next t e
      else (t, inl (gave_up max_retries (some e)))

  -- The loop; the first argument is the number of attempts left.
  unfoldable pub attempt_from :
      ℕ
      → ℕ
      → Traffic
      → Str
      → Str
      → Option (Str ⊎ Str)
      → Bool
      → ℕ
      → Option ApiError
      → Traffic × Result
  unfolding execute_request should_retry
  attempt_from zero attempt t method path payload wants max_retries last =
      (t, inl (gave_up max_retries last))
  attempt_from (suc left) attempt t method path payload wants max_retries last =
      after_pause t (pause_error attempt (length t.sent)) (
        after_attempt max_retries attempt (execute_request t method path payload wants) (λ t' e.
          attempt_from left (suc attempt) t' method path payload wants max_retries (some e)))

  unfoldable pub do_request_with_retry :
      Traffic → Str → Str → Option (Str ⊎ Str) → Bool → ℕ → Traffic × Result
  unfolding attempt_from
  do_request_with_retry t method path payload wants max_retries =
      attempt_from max_retries 1 t method path payload wants max_retries none

  unfoldable pub do_request : Traffic → Str → Str → Option (Str ⊎ Str) → Bool → Traffic × Result
  unfolding do_request_with_retry
  do_request t method path payload wants = do_request_with_retry t method path payload wants 1

  abbrev login_only : Traffic × (AuthError ⊎ AuthToken) → Traffic × Option AuthError
  login_only (t, inl e) = (t, some e)
  login_only (t, inr token) = (t, none)

  unfoldable pub ensure_authenticated : Traffic → AuthManager → Traffic × Option AuthError
  unfolding get_valid_token
  ensure_authenticated t am =
      if not (str_eq am.token [])
      then (record t { client = record t.client { api_token = am.token } }, none)
      else login_only (get_valid_token env t am)
