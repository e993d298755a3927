-- ===== src/HttpClient.antt =====
-- pkg/api/http.go and pkg/api/auth.go: the requests that the client sends, their authentication and
-- their repetition. One goroutine is modelled, so a lock is left out. The other side is the record
-- Environment; it answers, and its clock reads, by the number of requests that have been sent.
pub mod Exchange
pub mod Requests
pub mod Retrying
pub mod Tests
pub mod Headers
pub mod Sending
pub mod Authorized
pub mod Tickets
use pvetui.Base.{
  ℕ, zero, suc, ◌+◌, ◌*◌, ◌/◌, List, [], ◌∷◌, ◌++◌, Option, none, some, Bool, true, false, not,
  ◌&&◌, ◌||◌, Str, str, str_eq, ltb, leb, ◌==◌, if◌then◌else◌, Dict, get, put, length, itoa_nat,
  has_prefix, contains, ◌⊎◌, inl, inr,
}

pub record AuthToken : Type 0 where
  pub ticket : Str
  pub csrf_token : Str
  pub username : Str
  pub expires_at : ℕ

pub record AuthManager : Type 0 where
  pub username : Str
  pub password : Str
  pub token : Str
  pub auth_token : Option AuthToken

pub record HttpClient : Type 0 where
  pub base_url : Str
  pub api_token : Str
  pub auth_manager : Option AuthManager

-- The body is none for a nil reader.
pub record Request : Type 0 where
  pub method : Str
  pub url : Str
  pub headers : Dict Str
  pub body : Option Str

-- What Do answers: an error, or a status code, its text, and the body or the error of reading it.
pub data Reply : Type 0 where
  no_response : Str → Reply
  response : ℕ → Str → Str ⊎ Str → Reply

-- The fields `data` of an answer to a login.
pub record Login : Type 0 where
  pub ticket : Str
  pub csrf_prevention_token : Str
  pub username : Str

-- `clock n` is the time, in nanoseconds, when n requests have been sent, and `cancelled n` the error of
-- the context where that is done then. `request_error` is that of http.NewRequestWithContext for a
-- method and a URL, `encode_form` is url.Values.Encode for a username and a password, and `decode_login`
-- and `unmarshal` are the JSON decoders.
pub record Environment : Type 0 where
  pub send : ℕ → Request → Reply
  pub clock : ℕ → ℕ
  pub cancelled : ℕ → Option Str
  pub request_error : Str → Str → Option Str
  pub encode_form : Str → Str → Str
  pub decode_login : Str ⊎ Str → Str ⊎ Login
  pub unmarshal : Str → Option Str

pub data AuthError : Type 0 where
  request_not_created : Str → AuthError
  request_failed : Str → AuthError
  bad_login_status : ℕ → Str → AuthError
  login_not_parsed : Str → AuthError
  no_ticket : AuthError

pub data ApiError : Type 0 where
  not_marshalled : Str → ApiError
  not_created : Str → ApiError
  not_authenticated : AuthError → ApiError
  not_sent : Str → ApiError
  not_read : Str → ApiError
  token_refused : Str → ApiError
  ticket_refused : Str → ApiError
  bad_status : ℕ → Str → ApiError
  not_parsed : Str → ApiError

unfoldable pub auth_error_text : AuthError → Str
unfolding itoa_nat
auth_error_text (request_not_created e) = str "failed to create authentication request: " ++ e
auth_error_text (request_failed e) = str "authentication request failed: " ++ e
auth_error_text (bad_login_status code status) =
    str "authentication failed with status " ++ (itoa_nat code ++ (str ": " ++ status))
auth_error_text (login_not_parsed e) = str "failed to parse authentication response: " ++ e
auth_error_text no_ticket = str "authentication failed: no ticket received"

-- err.Error()
unfoldable pub error_text : ApiError → Str
unfolding auth_error_text itoa_nat
error_text (not_marshalled e) = str "failed to marshal request data: " ++ e
error_text (not_created e) = str "failed to create request: " ++ e
error_text (not_authenticated e) = str "authentication failed: " ++ auth_error_text e
error_text (not_sent e) = str "request failed: " ++ e
error_text (not_read e) = str "failed to read response body: " ++ e
error_text (token_refused status) = str "API token authentication failed: " ++ status
error_text (ticket_refused status) = str "authentication failed: " ++ status
error_text (bad_status code body) =
    str "API request failed with status " ++ (itoa_nat code ++ (str ": " ++ body))
error_text (not_parsed e) = str "failed to parse response JSON: " ++ e

-- The attempts are counted from 1; a negative number of them is zero.
unfoldable pub should_retry : ApiError → ℕ → ℕ → Bool
unfolding error_text contains
should_retry err attempt max_retries =
    if leb max_retries attempt
    then false
    else contains (error_text err) (str "connection")
      || (contains (error_text err) (str "timeout") || contains (error_text err) (str "status 5"))

-- A nil token is not valid.
abbrev pub is_valid : Option AuthToken → ℕ → Bool
is_valid none now = false
is_valid (some t) now = not (str_eq t.ticket []) && ltb now t.expires_at

unfoldable pub is_token_auth : AuthManager → Bool
is_token_auth am = not (str_eq am.token [])

unfoldable pub clear_token : AuthManager → AuthManager
clear_token am = record am { auth_token = none }

abbrev pub hours : ℕ → ℕ
hours n = n * 3600 * 1000000000

-- The client and the requests that were sent, the first one first.
pub record Traffic : Type 0 where
  pub client : HttpClient
  pub sent : List Request

abbrev pub write_method : Str → Bool
write_method method =
    str_eq method (str "POST") || (str_eq method (str "PUT") || str_eq method (str "DELETE"))

abbrev pub full_url : Str → Str → Str
full_url base_url path =
    if not (has_prefix path (str "/")) then base_url ++ (b'/' ∷ path) else base_url ++ path

-- The body of a request with data: none for nil, else what json.Marshal answers.
abbrev pub body_of : Option (Str ⊎ Str) → Str ⊎ Option Str
body_of none = inr none
body_of (some (inl e)) = inl e
body_of (some (inr json)) = inr (some json)
