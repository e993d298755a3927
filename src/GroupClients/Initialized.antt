-- ===== src/GroupClients/Initialized.antt =====
-- What Initialize leaves, and when it fails.
use pvetui.Base.{
  List, [], ◌∷◌, Option, none, some, true, false, Str, str_eq, str_eq_iff, if◌then◌else◌, Dict, get,
  put, get-put, put-Distinct, length, filter, Distinct, Bool-cases, ltb, Elem, ◌≡◌, ◌≢◌, ◌↔◌, ◌⊎◌,
  refl, arith, inl, inr, ◌∙◌, sym, subst, Elem-filter, filter-Elem, Option-cases,
}
use pvetui.GroupClients.{
  ProfileClient, ProfileEntry, GroupClientManager, is_connected, values, profile_client, collect,
  get_connected_clients, get_client, initialize, set_status, failures, all_failed,
}

module _ {Config : Type 0} (connect : Config → Option Str) where
  -- No two profiles have the same name.
  abbrev pub NamedOnce : List (ProfileEntry Config) → Type 0
  NamedOnce [] = Unit
  NamedOnce (pe ∷ rest) =
      ((other : ProfileEntry Config) → Elem other rest → pe.name ≢ other.name) × NamedOnce rest

  collect-other :
      (es : List (ProfileEntry Config)) (m : Dict ProfileClient) (name : Str)
      → ((other : ProfileEntry Config) → Elem other es → name ≢ other.name)
      → get name (collect connect es m) ≡ get name m
  unfolding collect
  collect-other [] m name h = refl
  collect-other (pe ∷ es) m name h =
      collect-other es (put pe.name (profile_client connect pe) m) name (λ o e. h o (inr e))
      ∙ rw (get-put pe.name name (profile_client connect pe) m, differs) refl
    where
      differs : str_eq pe.name name ≡ false
      differs = elim (Bool-cases (str_eq pe.name name)) [
        | inl y ↦ absurd (h pe (inl refl) (sym ((str_eq_iff pe.name name).0 y)))
        | inr n ↦ n
      ]

  pub get-collect :
      (es : List (ProfileEntry Config)) (m : Dict ProfileClient) (pe : ProfileEntry Config)
      → NamedOnce es
      → Elem pe es
      → get pe.name (collect connect es m) ≡ some (profile_client connect pe)
  unfolding collect
  get-collect [] m pe d i = absurd i
  get-collect (x ∷ es) m pe d (inl e) =
      collect-other es _ pe.name (λ o i. rw (← e) (d.0 o i))
      ∙ rw
          (
            get-put x.name pe.name (profile_client connect x) m,
            e,
            (str_eq_iff pe.name pe.name).1 refl,
          )
          refl
  get-collect (x ∷ es) m pe d (inr e) = get-collect es _ pe d.1 e

  collect-Distinct :
      (es : List (ProfileEntry Config)) (m : Dict ProfileClient)
      → Distinct m
      → Distinct (collect connect es m)
  unfolding collect
  collect-Distinct [] m d = d
  collect-Distinct (pe ∷ es) m d = collect-Distinct es _ (put-Distinct pe.name _ m d)

  collected :
      (es : List (ProfileEntry Config)) (m : Dict ProfileClient) (name : Str) (pc : ProfileClient)
      → get name (collect connect es m) ≡ some pc
      → (get name m ≡ some pc)
        ⊎ ((pe : ProfileEntry Config) × Elem pe es × (profile_client connect pe ≡ pc))
  unfolding collect
  collected [] m name pc h = inl h
  collected (x ∷ es) m name pc h = elim (collected es _ name pc h) [
    | inr (pe, i, e) ↦ inr (pe, inr i, e)
    | inl e ↦ elim (Bool-cases (str_eq x.name name)) [
      | inl y ↦ inr (x, inl refl, put_here y e)
      | inr n ↦ inl (put_there n e)
    ]
  ]
    where
      put_here :
          str_eq x.name name ≡ true
          → get name (put x.name (profile_client connect x) m) ≡ some pc
          → profile_client connect x ≡ pc
      put_here y e = ground (arith, get-put x.name name (profile_client connect x) m)

      put_there :
          str_eq x.name name ≡ false
          → get name (put x.name (profile_client connect x) m) ≡ some pc
          → get name m ≡ some pc
      put_there n e = ground (arith, get-put x.name name (profile_client connect x) m)

  pub connected_iff :
      (pe : ProfileEntry Config)
      → (is_connected (profile_client connect pe) ≡ true) ↔ (connect pe.config ≡ none)
  unfolding profile_client set_status
  connected_iff pe = elim (Option-cases (connect pe.config)) [
    | inl e ↦ rw e (λ x. refl, λ x. refl)
    | inr (f, e) ↦ rw e (λ x. cc, λ x. cc)
  ]

module _ {A : Type 0} where
  get-values : (k : Str) (a : A) (m : Dict A) → get k m ≡ some a → Elem a (values m)
  unfolding get
  get-values k a [] h = cc
  get-values k a ((j, b) ∷ m) h = ground (arith, get-values k a m)

  values-get :
      (a : A) (m : Dict A) → Distinct m → Elem a (values m) → (k : Str) × (get k m ≡ some a)
  unfolding get
  values-get a [] d i = absurd i
  values-get a ((j, b) ∷ m) d (inl e) = (j, ground (arith, str_eq_iff j j))
  values-get a ((j, b) ∷ m) d (inr e) = let (k, h) = values-get a m d.1 e in (k, behind k h)
    where
      behind : (k : Str) → get k m ≡ some a → (if str_eq j k then some b else get k m) ≡ some a
      behind k h = ground (arith, str_eq_iff j k, d.0)

  head_listed : (xs : List A) → ltb 0 (length xs) ≡ true → (a : A) × Elem a xs
  head_listed [] h = cc
  head_listed (x ∷ xs) h = (x, inl refl)

  listed_length : (a : A) (xs : List A) → Elem a xs → ltb 0 (length xs) ≡ true
  listed_length a [] e = absurd e
  listed_length a (x ∷ xs) e = ground arith

nothing_stored : (k : Str) (pc : ProfileClient) → get k [] ≡ some pc → ⊥
unfolding get
nothing_stored k pc h = ground arith

module _ {Config : Type 0} (connect : Config → Option Str) (m : GroupClientManager)
    (profiles arrivals failed : List (ProfileEntry Config)) (once : NamedOnce connect arrivals)
    (all : (pe : ProfileEntry Config) → Elem pe arrivals ↔ Elem pe profiles) where
  -- Where no two profiles have the same name and each reports once, in whatever order, after Initialize
  -- every profile has the client that its own connection attempt gave, the failed ones too.
  pub get_client-initialize :
      (pe : ProfileEntry Config)
      → Elem pe profiles
      → get_client (initialize connect m profiles arrivals failed).0 pe.name
        ≡ some (profile_client connect pe)
  unfolding get_client initialize
  get_client-initialize pe i = go profiles i
    where
      go :
          (ps : List (ProfileEntry Config))
          → Elem pe ps
          → get pe.name (initialize connect m ps arrivals failed).0.clients
            ≡ some (profile_client connect pe)
      go [] j = absurd j
      go (p ∷ ps) j = get-collect connect arrivals [] pe once ((all pe).1 i)

  clients_connect :
      (p : ProfileEntry Config) (ps : List (ProfileEntry Config))
      → ((initialize connect m (p ∷ ps) arrivals failed).1 ≡ none)
        ↔ ((pe : ProfileEntry Config) × Elem pe arrivals × (connect pe.config ≡ none))
  unfolding initialize get_connected_clients
  clients_connect p ps = (
    λ h.
        let (pc, i) = head_listed listed (no_error h) in
        let (v, c) = filter-Elem is_connected pc (values clients) i in
        let (k, g) = values-get pc clients (collect-Distinct connect arrivals [] tt) v in
        elim (collected connect arrivals [] k pc g) [
          | inl e ↦ absurd (nothing_stored k pc e)
          | inr (pe, j, e) ↦ (pe, j, (connected_iff connect pe).0 (rw e c))
        ],
    λ x.
        let (pe, i, e) = x in
        let g = get-collect connect arrivals [] pe once i in
        let v = get-values pe.name (profile_client connect pe) clients g in
        let j = Elem-filter is_connected _ (values clients) ((connected_iff connect pe).1 e) v in
        rw (listed_length _ listed j) refl,
  )
    where
      clients : Dict ProfileClient
      clients = collect connect arrivals []

      listed : List ProfileClient
      listed = filter is_connected (values clients)

      no_error :
          (if ltb 0 (length listed) then none else some (all_failed (failures connect failed)))
            ≡ none
          → ltb 0 (length listed) ≡ true
      no_error h = ground arith

  -- Where no two profiles have the same name and each reports once, in whatever order, Initialize
  -- succeeds exactly where some profile connects; so it fails without profiles.
  initialize_iff :
      ((initialize connect m profiles arrivals failed).1 ≡ none)
      ↔ ((pe : ProfileEntry Config) × Elem pe profiles × (connect pe.config ≡ none))
  unfolding initialize
  initialize_iff = go profiles refl
    where
      go :
          (ps : List (ProfileEntry Config))
          → profiles ≡ ps
          → ((initialize connect m ps arrivals failed).1 ≡ none)
            ↔ ((pe : ProfileEntry Config) × Elem pe ps × (connect pe.config ≡ none))
      go [] q = (λ h. cc, λ x. absurd x.1)
      go (p ∷ ps) q = (
        λ h.
            let (pe, i, e) = (clients_connect p ps).0 h in
            (pe, subst (λ l. Elem pe l) q ((all pe).0 i), e),
        λ x. (clients_connect p ps).1 (x.0, (all x.0).1 (subst (λ l. Elem x.0 l) (sym q) x.1), x.2),
      )
