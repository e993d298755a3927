-- ===== src/GroupClients/Summary.antt =====
-- What GetConnectionSummary reports.
use pvetui.Base.{
  ◌+◌, [], ◌∷◌, Option, none, some, true, Str, str_eq, str_eq_iff, Dict, get, put, get-put, length,
  filter, Distinct, Bool-cases, ◌≡◌, refl, arith, inl, inr, ◌∙◌,
}
use pvetui.GroupClients.{
  ProfileClient, GroupClientManager, ConnectionSummary, is_connected, values, get_connected_clients,
  get_client, status_text, summarize_client, summarize, get_connection_summary,
}

counts :
    (m : Dict ProfileClient) (s : ConnectionSummary)
    → ((summarize m s).total_profiles ≡ s.total_profiles)
      × ((summarize m s).connected_count
          ≡ s.connected_count + length (filter is_connected (values m)))
      × ((summarize m s).connected_count + (summarize m s).error_count
          ≡ s.connected_count + s.error_count + length m)
unfolding summarize summarize_client
counts [] s = (refl, omega arith, omega arith)
counts ((name, pc) ∷ m) s =
    let (t, c, e) = counts m (summarize_client s name pc) in
    elim (Bool-cases (is_connected pc)) [
      | inl y ↦ ground (arith, t, c, e, y)
      | inr n ↦ ground (arith, t, c, e, n)
    ]

abbrev pub status_of : Option ProfileClient → Option Str
status_of none = none
status_of (some pc) = some (status_text pc)

abbrev or_before : Option ProfileClient → Option Str → Option Str
or_before none told = told
or_before (some pc) told = some (status_text pc)

told_once :
    (s : ConnectionSummary) (name : Str) (pc : ProfileClient)
    → (summarize_client s name pc).profile_status ≡ put name (status_text pc) s.profile_status
unfolding summarize_client
told_once s name pc = elim (Bool-cases (is_connected pc)) [ inl y ↦ rw y refl | inr n ↦ rw n refl ]

told :
    (m : Dict ProfileClient) (s : ConnectionSummary) (name : Str)
    → Distinct m
    → get name (summarize m s).profile_status ≡ or_before (get name m) (get name s.profile_status)
unfolding summarize get
told [] s name d = refl
told ((j, pc) ∷ m) s name d = elim (Bool-cases (str_eq j name)) [
  | inl y ↦
      told m (summarize_client s j pc) name d.1
      ∙ rw (y, told_once s j pc, get-put j name (status_text pc) s.profile_status, y, absent y) refl
  | inr n ↦
      told m (summarize_client s j pc) name d.1
      ∙ rw (n, told_once s j pc, get-put j name (status_text pc) s.profile_status, n) refl
]
  where
    absent : str_eq j name ≡ true → get name m ≡ none
    absent y = rw (← (str_eq_iff j name).0 y) d.0

-- Where each name stands once in the map, the summary counts every profile of the group once, as connected or as an error; the connected ones
-- are those that GetConnectedClients lists; and each profile has its own status text.
get_connection_summary_lem :
    (m : GroupClientManager) (name : Str)
    → Distinct m.clients
    → let s = get_connection_summary m in
      (s.total_profiles ≡ s.connected_count + s.error_count)
      × (s.total_profiles ≡ length m.clients)
      × (s.connected_count ≡ length (get_connected_clients m))
      × (get name s.profile_status ≡ status_of (get_client m name))
unfolding get_connection_summary get_connected_clients get_client
get_connection_summary_lem m name d =
    let (t, c, e) = counts m.clients _ in
    (omega (arith, t, e), t, omega (arith, c), told m.clients _ name d ∙ same (get name m.clients))
  where
    same : (o : Option ProfileClient) → or_before o none ≡ status_of o
    same none = refl
    same (some pc) = refl
