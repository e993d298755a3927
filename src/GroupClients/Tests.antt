-- ===== src/GroupClients/Tests.antt =====
-- Runs of the group client manager at concrete inputs, and the theorems applied there.
use pvetui.Base.{
  List, [], ◌∷◌, Option, none, some, true, Str, str, str_eq, str_eq_iff, get, put, length, ◌≡◌, ◌≢◌,
  ◌↔◌, refl, sym, ap, ◌∙◌, inl, inr, Elem, Distinct,
}
use pvetui.GroupClients.{
  GroupClientManager, ProfileEntry, new_group_client_manager, initialize, get_client,
  profile_client, get_connected_clients,
}
use pvetui.GroupClients.Initialized.{NamedOnce, get_client-initialize}

-- The configuration is the error that connecting with it meets.
abbrev connect : Option Str → Option Str
connect config = config

abbrev home : ProfileEntry (Option Str)
home = record { name = str "home"; config = none }

abbrev work : ProfileEntry (Option Str)
work = record { name = str "work"; config = some (str "refused") }

abbrev group : GroupClientManager
group = new_group_client_manager (str "all")

abbrev profiles : List (ProfileEntry (Option Str))
profiles = home ∷ work ∷ []

abbrev arrivals : List (ProfileEntry (Option Str))
arrivals = work ∷ home ∷ []

abbrev opened : GroupClientManager
opened = (initialize connect group profiles arrivals (work ∷ [])).0

same_profiles : (pe : ProfileEntry (Option Str)) → Elem pe arrivals ↔ Elem pe profiles
same_profiles pe = (
  λ e. elim e [ inl p ↦ inr (inl p) | inr r ↦ elim r [ inl p ↦ inl p | inr b ↦ absurd b ] ],
  λ e. elim e [ inl p ↦ inr (inl p) | inr r ↦ elim r [ inl p ↦ inl p | inr b ↦ absurd b ] ],
)

not_equal : str_eq (str "work") (str "home") ≡ true → ⊥
unfolding str_eq
not_equal h = cc

work_not_home : str "work" ≢ str "home"
work_not_home p = not_equal ((str_eq_iff (str "work") (str "home")).1 p)

work_home : (other : ProfileEntry (Option Str)) → Elem other (home ∷ []) → str "work" ≢ other.name
work_home other (inl e) q = work_not_home (q ∙ ap (λ pe. pe.name) (sym e))
work_home other (inr b) q = absurd b

arrivals-NamedOnce : NamedOnce connect arrivals
arrivals-NamedOnce = (work_home, (λ other e. absurd e, tt))

stored_work : get_client opened (str "work") ≡ some (profile_client connect work)
unfolding get_client initialize new_group_client_manager str_eq get put
stored_work = refl

one_connected : length (get_connected_clients opened) ≡ 1
unfolding get_connected_clients initialize new_group_client_manager str_eq get put
one_connected = refl

opened-Distinct : Distinct opened.clients
unfolding initialize new_group_client_manager str_eq get put
opened-Distinct = (refl, (refl, tt))

get_client-initialize_example :
    get_client (initialize connect group profiles arrivals (work ∷ [])).0 (str "work")
    ≡ some (profile_client connect work)
get_client-initialize_example =
    get_client-initialize connect group profiles arrivals (work ∷ []) arrivals-NamedOnce
      same_profiles work (inr (inl refl))
