-- ===== src/HttpClient/Tests.antt =====
-- Runs of the client against concrete servers, and the theorems applied there.
use pvetui.Base.{
  Occurs, ℕ, ◌+◌, ◌*◌, ◌≤◌, [], ◌++◌, none, some, true, false, Str, str, str_eq, ◌==◌,
  if◌then◌else◌, length, ◌⊎◌, inr, ◌≡◌, refl, has_prefix, put, contains, itoa_nat,
}
use pvetui.HttpClient.{
  AuthToken, AuthManager, Request, Reply, response, Environment, should_retry, is_valid, Traffic,
  full_url,
}
use pvetui.HttpClient.Exchange.{with_ticket, api_request, get_valid_token}
use pvetui.HttpClient.Requests.{credentials_for, execute_request, do_request_with_retry}
use pvetui.HttpClient.Tickets.{now, Cached, LoginFails, LoginSucceeds, get_valid_token_cases}
use pvetui.HttpClient.Sending.{do_request_with_retry_bound}

-- A server that logs in, answers the second request with `code`, and then with 200.
abbrev answering : ℕ → ℕ → Request → Reply
answering code n req =
    if str_eq req.url (str "https://pve/access/ticket")
    then response 200 (str "200 OK") (inr (str "login"))
    else if n == 1
    then response code (str "status") (inr (str "busy"))
    else response 200 (str "200 OK") (inr (str "{}"))

abbrev world : ℕ → Environment
world code = record {
  send = answering code;
  clock = λ n. n;
  cancelled = λ n. none;
  request_error = λ method url. none;
  encode_form = λ user password. user ++ password;
  decode_login = λ body.
      inr (record { ticket = str "T"; csrf_prevention_token = str "C"; username = str "root" });
  unmarshal = λ body. none;
}

abbrev manager : AuthManager
manager = record {
  username = str "root@pam";
  password = str "secret";
  token = [];
  auth_token = none;
}

abbrev fresh : Traffic
fresh = record {
  client = record { base_url = str "https://pve"; api_token = []; auth_manager = some manager };
  sent = [];
}

-- A login, a request that is answered with 503, and the one that succeeds.
retried :
    let r = do_request_with_retry (world 503) fresh (str "GET") (str "/nodes") none true 3 in
    (r.1 ≡ inr (some (str "{}"))) × (length r.0.sent ≡ 3)
unfolding do_request_with_retry str_eq has_prefix put get_valid_token should_retry contains itoa_nat
    execute_request api_request credentials_for
retried = (refl, refl)

get_valid_token_cases_example :
    Cached (world 503) fresh manager
    ⊎ ((is_valid manager.auth_token (now (world 503) fresh) ≡ false)
        × (LoginFails (world 503) fresh manager ⊎ LoginSucceeds (world 503) fresh manager))
get_valid_token_cases_example = get_valid_token_cases (world 503) fresh manager refl

do_request_with_retry_bound_example :
    length (do_request_with_retry (world 503) fresh (str "GET") (str "/nodes") none true 3).0.sent
    ≤ length fresh.sent + 2 * 3
do_request_with_retry_bound_example =
    do_request_with_retry_bound (world 503) fresh (str "GET") (str "/nodes") none true 3

abbrev ticket : AuthToken
ticket = record {
  ticket = str "T";
  csrf_token = str "C";
  username = str "root";
  expires_at = 7200000000001;
}

abbrev after_login : Traffic
after_login = (get_valid_token (world 401) fresh manager).0

abbrev logged_in_manager : AuthManager
logged_in_manager = record manager { auth_token = some ticket }

login_first : credentials_for (world 401) fresh ≡ (after_login, inr (with_ticket ticket))
unfolding credentials_for get_valid_token str_eq
login_first = refl

ticket_kept : after_login.client.auth_manager ≡ some logged_in_manager
unfolding get_valid_token str_eq
ticket_kept = refl

no_api_token : after_login.client.api_token ≡ []
unfolding get_valid_token str_eq
no_api_token = refl

answered_401 :
    (world 401).send (length after_login.sent) (
      api_request
        (str "GET")
        (full_url (str "https://pve") (str "/nodes"))
        none
        (with_ticket ticket))
    ≡ response 401 (str "status") (inr (str "busy"))
unfolding get_valid_token str_eq api_request has_prefix
answered_401 = refl

abbrev not_there : Str
not_there = str "no such connection"

mentions : Occurs (str "connection") not_there
mentions = record { before = str "no such "; after = []; split = refl }
