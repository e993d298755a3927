-- ===== src/HttpClient/Retrying.antt =====
-- Which errors are worth another attempt.
use pvetui.Base.{
  Occurs, contains_iff, Occurs-trans, ℕ, ◌+◌, ◌/◌, ◌%◌, ◌≤◌, ◌<◌, [], ◌∷◌, ◌++◌, true, Str, str,
  itoa_nat, itoa_nat_three, ◌⊎◌, ◌↔◌, inl, inr, ◌≡◌, refl, arith, append_assoc, append-nil,
}
use pvetui.HttpClient.{ApiError, bad_status, error_text, should_retry}

-- The error is that of a connection or a timeout, or of a status that begins with 5, or reads so.
abbrev pub ReadsTransient : Str → Type 0
ReadsTransient s =
    Occurs (str "connection") s ⊎ (Occurs (str "timeout") s ⊎ Occurs (str "status 5") s)

-- An attempt is followed by another one exactly where it is not the last and the text of its error
-- mentions a connection, a timeout or "status 5".
should_retry_iff :
    (err : ApiError) (attempt max_retries : ℕ)
    → (should_retry err attempt max_retries ≡ true)
      ↔ ((attempt < max_retries) × ReadsTransient (error_text err))
unfolding should_retry
should_retry_iff err attempt max_retries = ground (
  arith,
  contains_iff (error_text err) (str "connection"),
  contains_iff (error_text err) (str "timeout"),
  contains_iff (error_text err) (str "status 5"),
)

server_status :
    (code : ℕ) (body : Str)
    → 500 ≤ code
    → code < 600
    → Occurs (str "status 5") (error_text (bad_status code body))
unfolding error_text
server_status code body h k = record {
  before = str "API request failed with ";
  after = (48 + code / 10 % 10) ∷ (48 + code % 10) ∷ (str ": " ++ body);
  split = rw (itoa_nat_three code (omega arith) (omega arith), five) refl;
}
  where
    five : code / 10 / 10 % 10 ≡ 5
    five = omega arith

-- A server error, a status from 500 to 599, is tried again while attempts are left.
should_retry_server_error :
    (code : ℕ) (body : Str) (attempt max_retries : ℕ)
    → 500 ≤ code
    → code < 600
    → attempt < max_retries
    → should_retry (bad_status code body) attempt max_retries ≡ true
should_retry_server_error code body attempt max_retries h k l =
    (should_retry_iff (bad_status code body) attempt max_retries).1
      (l, inr (inr (server_status code body h k)))

body-Occurs : (code : ℕ) (body : Str) → Occurs body (error_text (bad_status code body))
unfolding error_text
body-Occurs code body = record {
  before = str "API request failed with status " ++ (itoa_nat code ++ str ": ");
  after = [];
  split = shown (itoa_nat code);
}
  where
    shown :
        (digits : Str)
        → str "API request failed with status " ++ (digits ++ (str ": " ++ body))
          ≡ (str "API request failed with status " ++ (digits ++ str ": ")) ++ (body ++ [])
    shown digits = simp (append_assoc, append-nil)

-- An answer with any other status that is an error, such as 404, is tried again too where its body
-- mentions a connection or a timeout.
should_retry_body :
    (code : ℕ) (body : Str) (attempt max_retries : ℕ)
    → attempt < max_retries
    → Occurs (str "connection") body ⊎ Occurs (str "timeout") body
    → should_retry (bad_status code body) attempt max_retries ≡ true
should_retry_body code body attempt max_retries l o =
    (should_retry_iff (bad_status code body) attempt max_retries).1 (l, within o)
  where
    within :
        Occurs (str "connection") body ⊎ Occurs (str "timeout") body
        → ReadsTransient (error_text (bad_status code body))
    within (inl c) = inl (Occurs-trans (str "connection") body _ c (body-Occurs code body))
    within (inr t) = inr (inl (Occurs-trans (str "timeout") body _ t (body-Occurs code body)))
