-- ===== src/Ansible/Shared.antt =====
-- computeSharedAnsibleVars and filterHostVars: what a host's variables are when those of all hosts are
-- written once.
use pvetui.Base.{
  List, [], ◌∷◌, Option, none, some, not, ◌||◌, Str, str, str_eq, str_eq_iff, if◌then◌else◌, Dict,
  get, Distinct, trim_space, Elem, ◌≡◌, inl, inr, refl, subst, All, arith, Bool-cases, Option-cases,
}
use pvetui.Ansible.{InventoryHost, is_blank}
use pvetui.Ansible.Inventory.{
  first_shared, text_of, keep_shared, shared_among, compute_shared_ansible_vars, is_shared,
  filter_host_vars, shared_for,
}

-- A variable as an inventory shows it: without the white space around it, and not at all when blank.
abbrev pub shown : Option Str → Option Str
shown none = none
shown (some v) = if is_blank v then none else some (trim_space v)

abbrev pub or_else : Option Str → Option Str → Option Str
or_else none other = other
or_else (some v) other = some v

-- What a reader of an inventory takes a variable of a host to be: its own, or else that of all hosts.
abbrev pub resolved : Dict Str → Dict Str → Str → Option Str
resolved vars shared k = or_else (get k (filter_host_vars vars shared)) (get k shared)

abbrev unshared : Option Str → Option Str → Option Str
unshared shared none = none
unshared shared (some v) = if is_shared shared v then none else some v

abbrev agreed : Str → Option Str → Option Str
agreed actual none = none
agreed actual (some e) = if str_eq actual [] || not (str_eq actual e) then none else some e

get-filter_host_vars :
    (k : Str) (vars shared : Dict Str)
    → Distinct vars
    → get k (filter_host_vars vars shared) ≡ unshared (get k shared) (shown (get k vars))
unfolding get filter_host_vars
get-filter_host_vars k [] shared d = refl
get-filter_host_vars k ((j, v) ∷ vars) shared d =
    ground (arith, str_eq_iff j k, get-filter_host_vars k vars shared d.1)

first_shared_absent :
    (k : Str) (vars : Dict Str) → get k vars ≡ none → get k (first_shared vars) ≡ none
unfolding get first_shared
first_shared_absent k [] h = refl
first_shared_absent k ((j, v) ∷ vars) h = ground (arith, first_shared_absent k vars)

first_shared-Distinct : (vars : Dict Str) → Distinct vars → Distinct (first_shared vars)
unfolding get first_shared
first_shared-Distinct [] d = tt
first_shared-Distinct ((j, v) ∷ vars) d =
    ground (arith, first_shared_absent j vars d.0, first_shared-Distinct vars d.1)

shown-first_shared :
    (k e : Str) (vars : Dict Str)
    → Distinct vars
    → get k (first_shared vars) ≡ some e
    → shown (get k vars) ≡ some e
unfolding get first_shared
shown-first_shared k e [] d h = cc
shown-first_shared k e ((j, v) ∷ vars) d h = elim (Bool-cases (str_eq j k)) [
  | inl y ↦
      ground (
        arith,
        (str_eq_iff j k).0 y,
        y,
        first_shared_absent k vars (rw (← (str_eq_iff j k).0 y) d.0),
      )
  | inr n ↦ ground (arith, n, shown-first_shared k e vars d.1)
]

get-keep_shared :
    (k : Str) (vars shared : Dict Str)
    → Distinct shared
    → get k (keep_shared vars shared) ≡ agreed (trim_space (text_of (get k vars))) (get k shared)
unfolding get keep_shared
get-keep_shared k vars [] d = refl
get-keep_shared k vars ((j, e) ∷ shared) d =
    ground (arith, str_eq_iff j k, get-keep_shared k vars shared d.1)

keep_shared-Distinct :
    (vars shared : Dict Str) → Distinct shared → Distinct (keep_shared vars shared)
unfolding get keep_shared
keep_shared-Distinct vars [] d = tt
keep_shared-Distinct vars ((j, e) ∷ shared) d =
    ground (arith, get-keep_shared j vars shared d.1, keep_shared-Distinct vars shared d.1)

trim_nil : trim_space [] ≡ []
unfolding trim_space
trim_nil = refl

-- A variable that is kept was there, and is the host's.
keep_shared_cases :
    (k e : Str) (vars shared : Dict Str)
    → Distinct shared
    → get k (keep_shared vars shared) ≡ some e
    → (get k shared ≡ some e) × (shown (get k vars) ≡ some e)
keep_shared_cases k e vars shared d h = ground (
  arith,
  get-keep_shared k vars shared d,
  h,
  str_eq_iff (trim_space (text_of (get k vars))) e,
  trim_nil,
)

shared_among_kept :
    (k e : Str) (hosts : List InventoryHost) (shared : Dict Str)
    → Distinct shared
    → get k (shared_among shared hosts) ≡ some e
    → get k shared ≡ some e
unfolding shared_among
shared_among_kept k e [] shared d h = h
shared_among_kept k e (host ∷ hosts) shared d h =
    (keep_shared_cases k e host.vars shared d (
      shared_among_kept k e hosts (keep_shared host.vars shared)
        (keep_shared-Distinct host.vars shared d) h)).0

shown-shared_among :
    (k e : Str) (host : InventoryHost) (hosts : List InventoryHost) (shared : Dict Str)
    → Distinct shared
    → Elem host hosts
    → get k (shared_among shared hosts) ≡ some e
    → shown (get k host.vars) ≡ some e
unfolding shared_among
shown-shared_among k e host [] shared d m h = absurd m
shown-shared_among k e host (x ∷ hosts) shared d (inl p) h =
    subst (λ (y : InventoryHost). shown (get k y.vars) ≡ some e) p
      (keep_shared_cases k e x.vars shared d (
        shared_among_kept k e hosts (keep_shared x.vars shared)
          (keep_shared-Distinct x.vars shared d) h)).1
shown-shared_among k e host (x ∷ hosts) shared d (inr m) h =
    shown-shared_among k e host hosts (keep_shared x.vars shared)
      (keep_shared-Distinct x.vars shared d) m h

abbrev pub DistinctVars : InventoryHost → Type 0
DistinctVars host = Distinct host.vars

-- A variable that is written once is the variable of every host.
shown-compute_shared_ansible_vars :
    (k e : Str) (host : InventoryHost) (hosts : List InventoryHost)
    → All DistinctVars hosts
    → Elem host hosts
    → get k (compute_shared_ansible_vars hosts) ≡ some e
    → shown (get k host.vars) ≡ some e
unfolding compute_shared_ansible_vars
shown-compute_shared_ansible_vars k e host [] d m h = absurd m
shown-compute_shared_ansible_vars k e host (x ∷ hosts) d (inl p) h =
    subst (λ (y : InventoryHost). shown (get k y.vars) ≡ some e) p
      (shown-first_shared k e x.vars d.0
        (shared_among_kept k e hosts (first_shared x.vars) (first_shared-Distinct x.vars d.0) h))
shown-compute_shared_ansible_vars k e host (x ∷ hosts) d (inr m) h =
    shown-shared_among k e host hosts (first_shared x.vars) (first_shared-Distinct x.vars d.0) m h

pub Elem-All :
    (P : InventoryHost → Type 0) (host : InventoryHost) (hosts : List InventoryHost)
    → All P hosts
    → Elem host hosts
    → P host
Elem-All P host [] a m = absurd m
Elem-All P host (x ∷ hosts) a (inl p) = subst P p a.0
Elem-All P host (x ∷ hosts) a (inr m) = Elem-All P host hosts a.1 m

-- Whatever the style, each variable of each host is what it was.
pub resolved-shown :
    (k style : Str) (host : InventoryHost) (hosts : List InventoryHost)
    → All DistinctVars hosts
    → Elem host hosts
    → resolved host.vars (shared_for hosts style) k ≡ shown (get k host.vars)
unfolding shared_for
resolved-shown k style host hosts d m = elim (Bool-cases (str_eq style (str "compact"))) [
  | inl y ↦ rw y (
      compact (compute_shared_ansible_vars hosts)
        (λ e. shown-compute_shared_ansible_vars k e host hosts d m))
  | inr n ↦ rw n (compact [] (λ e h. absurd (nothing e h)))
]
  where
    nothing : (e : Str) → get k [] ≡ some e → ⊥
    nothing e h = cc

    compact :
        (shared : Dict Str)
        → ((e : Str) → get k shared ≡ some e → shown (get k host.vars) ≡ some e)
        → resolved host.vars shared k ≡ shown (get k host.vars)
    compact shared same = elim (Option-cases (get k shared)) [
      | inl none_there ↦ ground (
        arith,
        get-filter_host_vars k host.vars shared (Elem-All DistinctVars host hosts d m),
        none_there,
      )
      | inr (e, there) ↦ ground (
        arith,
        get-filter_host_vars k host.vars shared (Elem-All DistinctVars host hosts d m),
        there,
        same e there,
        str_eq_iff e e,
      )
    ]
