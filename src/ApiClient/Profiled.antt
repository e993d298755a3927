-- ===== src/ApiClient/Profiled.antt =====
-- Which addresses and which authentication NewClient takes from a configuration.
use pvetui.Base.{
  Occurs, contains_iff, ℕ, [], ◌∷◌, ◌++◌, none, some, true, false, not, ◌&&◌, Str, str, str_eq,
  str_eq_iff, if◌then◌else◌, has_prefix, has_prefix-split, contains, Elem, ◌⊎◌, inl, inr, ◌≡◌, ◌≢◌,
  refl, sym, ap, ◌∙◌, subst, arith, Bool-cases, get,
}
use pvetui.Config.{
  Config, ProfileConfig, Connection, trim_slashes, has_token, apply_profile, entries,
}
use pvetui.Config.Getters.{
  get_addr, get_user, get_realm, get_password, get_api_token, is_using_token_auth, effective,
}
use pvetui.Config.Fitting.{CanLogin}
use pvetui.Config.Selection.{apply_profile_cases}
use pvetui.HttpClient.{AuthManager, Environment, Traffic}
use pvetui.HttpClient.Requests.{ensure_authenticated}
use pvetui.ApiClient.{
  trim_suffix, server_base_url, new_client, auth_manager_for, connected_with,
  new_auth_manager_with_token, new_auth_manager_with_password,
}

-- A byte that a suffix does not have stays where the suffix is trimmed.
trim_suffix-Elem :
    (b : ℕ) (s suffix : Str) → (Elem b suffix → ⊥) → Elem b s → Elem b (trim_suffix s suffix)
unfolding trim_suffix
trim_suffix-Elem b [] suffix h i = i
trim_suffix-Elem b (c ∷ s) suffix h i = elim (Bool-cases (str_eq (c ∷ s) suffix)) [
  | inl y ↦ absurd (h (rw (← (str_eq_iff (c ∷ s) suffix).0 y) i))
  | inr n ↦ rw n (step (trim_suffix-Elem b s suffix h) i)
]
  where
    step :
        (Elem b s → Elem b (trim_suffix s suffix))
        → Elem b (c ∷ s)
        → Elem b (c ∷ trim_suffix s suffix)
    step f (inl e) = inl e
    step f (inr e) = inr (f e)

Elem-Occurs : (b : ℕ) (s : Str) → Elem b s → Occurs (b ∷ []) s
Elem-Occurs b (c ∷ s) (inl e) = record { before = []; after = s; split = ap (λ x. x ∷ s) e }
Elem-Occurs b (c ∷ s) (inr i) =
    let o = Elem-Occurs b s i in
    record { before = c ∷ o.before; after = o.after; split = ap (◌∷◌ c) o.split }
Elem-Occurs b [] i = absurd i

append-Elem : (b : ℕ) (s t : Str) → Elem b s → Elem b (s ++ t)
append-Elem b (c ∷ s) t (inl e) = inl e
append-Elem b (c ∷ s) t (inr i) = inr (append-Elem b s t i)
append-Elem b [] t i = absurd i

-- The byte of the colon stands in the scheme that NewClient puts before an address, and stays.
colon_there : (addr : Str) → Elem b':' (server_base_url addr)
unfolding server_base_url
colon_there addr =
    trim_suffix-Elem b':' _ (str "/api2/json") no_colon (with_scheme (trim_slashes addr))
  where
    no_colon : Elem b':' (str "/api2/json") → ⊥
    no_colon i = ground arith

    scheme : (base p : Str) → Elem b':' p → has_prefix base p ≡ true → Elem b':' base
    scheme base p i h =
        let (r, e) = has_prefix-split base p h in
        subst (λ s. Elem b':' s) (sym e) (append-Elem b':' p r i)

    with_scheme :
        (base : Str)
        → Elem b':' (
            if not (has_prefix base (str "https://")) && not (has_prefix base (str "http://"))
            then str "https://" ++ base
            else base)
    with_scheme base = elim (Bool-cases (has_prefix base (str "https://"))) [
      | inl y ↦ rw y (scheme base (str "https://") (ground arith) y)
      | inr n ↦ elim (Bool-cases (has_prefix base (str "http://"))) [
        | inl y ↦ rw (n, y) (scheme base (str "http://") (ground arith) y)
        | inr m ↦ rw (n, m) (append-Elem b':' (str "https://") base (ground arith))
      ]
    ]

has_colon : (addr : Str) → contains (server_base_url addr) (str ":") ≡ true
has_colon addr =
    (contains_iff (server_base_url addr) (str ":")).1 (Elem-Occurs b':' _ (colon_there addr))

-- After a profile is applied, the getters and the deprecated fields give its connection.
applied_connection :
    (c : Config) (name : Str) (p : ProfileConfig)
    → name ≢ []
    → get name (entries c.profiles) ≡ some p
    → (effective (apply_profile c name).0 ≡ p.connection)
      × ((apply_profile c name).0.legacy ≡ p.connection)
applied_connection c name p h g = elim (apply_profile_cases c name h) [
  | inl (q, e, done, eff, leg, act) ↦
      let x = same q e in (eff ∙ ap (λ r. r.connection) x, leg ∙ ap (λ r. r.connection) x)
  | inr (x, e, r) ↦ absurd (gone e)
]
  where
    same : (q : ProfileConfig) → get name (entries c.profiles) ≡ some q → q ≡ p
    same q e = let x = sym e ∙ g in ground (arith, x)

    gone : get name (entries c.profiles) ≡ none → ⊥
    gone e = let x = sym e ∙ g in cc

-- user@realm!id=secret
abbrev pub token_text : Connection → Str
token_text l =
    str "PVEAPIToken="
    ++ (l.user ++ b'@' ∷ (l.realm ++ b'!' ∷ (l.token_id ++ b'=' ∷ l.token_secret)))

-- The manager that a connection calls for.
abbrev pub manager_of : Connection → AuthManager
manager_of l =
    if has_token l
    then new_auth_manager_with_token (token_text l)
    else new_auth_manager_with_password (l.user ++ (b'@' ∷ l.realm)) l.password

effective_fields :
    (c : Config) (l : Connection)
    → effective c ≡ l
    → (get_addr c ≡ l.addr)
      × (get_user c ≡ l.user)
      × (get_realm c ≡ l.realm)
      × (get_password c ≡ l.password)
unfolding get_addr get_user get_realm get_password
effective_fields c l e =
    (ap (λ x. x.addr) e, ap (λ x. x.user) e, ap (λ x. x.realm) e, ap (λ x. x.password) e)

auth_manager_for_lem :
    (c : Config) (l : Connection)
    → effective c ≡ l
    → c.legacy ≡ l
    → auth_manager_for c ≡ manager_of l
unfolding auth_manager_for is_using_token_auth get_api_token
auth_manager_for_lem c l e f =
    let (a, u, r, p) = effective_fields c l e in
    rw (u, r, p, f) (elim (Bool-cases (has_token l)) [ inl y ↦ rw y refl | inr n ↦ rw n refl ])

module _ (env : Environment) where
  -- NewClient never asks for a port: with any address that is not empty, one without a port too, it goes
  -- on to the authentication.
  pub new_client_portless :
      (c : Config)
      → get_addr c ≢ []
      → new_client env c ≡ connected_with env (server_base_url (get_addr c)) (auth_manager_for c)
  unfolding new_client
  new_client_portless c h = rw (set, has_colon (get_addr c)) refl
    where
      set : str_eq (get_addr c) [] ≡ false
      set = ground (arith, str_eq_iff (get_addr c) [])

  -- A client whose requests carry an API token, and which has sent nothing.
  abbrev pub with_token : Connection → Traffic
  with_token l = record {
    client = record {
      base_url = server_base_url l.addr ++ str "/api2/json";
      api_token = token_text l;
      auth_manager = some (new_auth_manager_with_token (token_text l));
    };
    sent = [];
  }

  -- After a profile that can log in is applied, NewClient is a client for its address: with its token,
  -- where it has one, and without sending anything; or else it logs in as its user in its realm, with
  -- its password.
  pub new_client-apply_profile :
      (c : Config) (name : Str) (p : ProfileConfig)
      → name ≢ []
      → get name (entries c.profiles) ≡ some p
      → CanLogin p.connection
      → let l = p.connection in
        let made = new_client env (apply_profile c name).0 in
        ((l.token_id ≢ []) × (l.token_secret ≢ []) × (made ≡ inr (with_token l)))
        ⊎ ((l.password ≢ [])
            × (made
                ≡ connected_with env
                    (server_base_url l.addr)
                    (new_auth_manager_with_password (l.user ++ (b'@' ∷ l.realm)) l.password)))
  new_client-apply_profile c name p h g (addr, user, method) =
      let (eff, leg) = applied_connection c name p h g in
      elim method [
        | inl (password, none_whole) ↦ inr (password, made eff leg ∙ rw (tokenless none_whole) refl)
        | inr (none_set, id, secret) ↦ inl (
          id,
          secret,
          made eff leg
              ∙ rw (whole id secret)
                  (unfold ensure_authenticated new_auth_manager_with_token str_eq in refl),
        )
      ]
    where
      c' : Config
      c' = (apply_profile c name).0

      l : Connection
      l = p.connection

      made :
          effective c' ≡ l
          → c'.legacy ≡ l
          → new_client env c' ≡ connected_with env (server_base_url l.addr) (manager_of l)
      made eff leg =
          let (a, u, r, pw) = effective_fields c' l eff in
          new_client_portless c' (rw a addr) ∙ rw (a, auth_manager_for_lem c' l eff leg) refl

      whole : l.token_id ≢ [] → l.token_secret ≢ [] → has_token l ≡ true
      whole id secret = ground (arith, str_eq_iff l.token_id [], str_eq_iff l.token_secret [])

      tokenless : (l.token_id ≡ []) ⊎ (l.token_secret ≡ []) → has_token l ≡ false
      tokenless o = ground (arith, str_eq_iff l.token_id [], str_eq_iff l.token_secret [])
