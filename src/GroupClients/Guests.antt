-- ===== src/GroupClients/Guests.antt =====
-- pkg/api/grouped-cluster.go: the guests of a group. The profiles' guests arrive in the list `results`,
-- where each guest already has the name of its profile; a nil guest is none.
pub mod Deduplicated
pub mod Ordered
pub mod Ambiguous
pub mod Tests
use pvetui.Base.{
  ℕ, List, [], ◌∷◌, ◌++◌, Option, none, some, Bool, true, false, not, Str, str, str_eq, str_lt, ltb,
  if◌then◌else◌, is_some, Dict, get, put, filter, ℤ, pos, negsuc, int_eq, itoa,
}

-- The fields of a guest that this code reads; `kind` is the field Type.
pub record Guest : Type 0 where
  pub id : ℤ
  pub name : Str
  pub node : Str
  pub kind : Str
  pub source_profile : Str

abbrev pub plain_guest_key : Guest → Str
plain_guest_key vm = str "vm|" ++ (vm.kind ++ (b'|' ∷ (itoa vm.id ++ (b'|' ∷ vm.node))))

unfoldable pub guest_key : Guest → Str
unfolding itoa
guest_key vm =
    if str_eq (plain_guest_key vm) (str "vm||0|")
    then str "vm|fallback|" ++ (vm.name ++ (b'|' ∷ (vm.node ++ (b'|' ∷ vm.source_profile))))
    else plain_guest_key vm

-- The loop: the map `seen` and the slice `order` after it.
unfoldable pub note_guests : List (Option Guest) → Dict Guest → List Str → Dict Guest × List Str
unfolding guest_key get put
note_guests [] seen order = (seen, order)
note_guests (none ∷ vms) seen order = note_guests vms seen order
note_guests (some vm ∷ vms) seen order =
    let old = is_some (get (guest_key vm) seen) in
    note_guests vms (if old then seen else put (guest_key vm) vm seen)
      (if old then order else order ++ guest_key vm ∷ [])

abbrev pub with_entry : Option Guest → List Guest → List Guest
with_entry none out = out
with_entry (some vm) out = vm ∷ out

-- The entries of a map for the keys of a list.
unfoldable pub entries_of : List Str → Dict Guest → List Guest
unfolding get
entries_of [] seen = []
entries_of (key ∷ order) seen = with_entry (get key seen) (entries_of order seen)

unfoldable pub deduplicate_group_vms : List (Option Guest) → List Guest
unfolding note_guests entries_of
deduplicate_group_vms vms = let (seen, order) = note_guests vms [] [] in entries_of order seen

abbrev int_lt : ℤ → ℤ → Bool
int_lt (pos m) (pos n) = ltb m n
int_lt (pos m) (negsuc n) = false
int_lt (negsuc m) (pos n) = true
int_lt (negsuc m) (negsuc n) = ltb n m

-- By profile, then by node, then by ID.
unfoldable pub guest_less : Guest → Guest → Bool
unfolding str_lt
guest_less a b =
    if not (str_eq a.source_profile b.source_profile)
    then str_lt a.source_profile b.source_profile
    else if not (str_eq a.node b.node)
    then str_lt a.node b.node
    else int_lt a.id b.id

-- sort.Slice leaves the order of guests that are equal in these open; here the earlier one stays first.
unfoldable pub insert_guest : Guest → List Guest → List Guest
unfolding guest_less
insert_guest vm [] = vm ∷ []
insert_guest vm (x ∷ vms) =
    let rest = insert_guest vm vms in if guest_less x vm then x ∷ rest else vm ∷ x ∷ vms

unfoldable pub sort_guests : List Guest → List Guest
unfolding insert_guest
sort_guests [] = []
sort_guests (vm ∷ vms) = insert_guest vm (sort_guests vms)

unfoldable pub all_guests : List (List (Option Guest)) → List (Option Guest)
all_guests [] = []
all_guests (vms ∷ results) = vms ++ all_guests results

-- The groupFunc of GetGroupVMs.
unfoldable pub group_vms : List (List (Option Guest)) → List Guest
unfolding deduplicate_group_vms sort_guests all_guests
group_vms results = sort_guests (deduplicate_group_vms (all_guests results))

pub data FindResult : Type 0 where
  not_found : ℤ → FindResult
  found : Guest → Str → FindResult
  ambiguous : ℤ → List Guest → FindResult

abbrev pub result_of : ℤ → List Guest → FindResult
result_of vm_id [] = not_found vm_id
result_of vm_id (vm ∷ []) = found vm vm.source_profile
result_of vm_id (vm ∷ other ∷ matches) = ambiguous vm_id (vm ∷ other ∷ matches)

unfoldable pub has_id : ℤ → Guest → Bool
unfolding int_eq
has_id vm_id vm = int_eq vm.id vm_id

-- FindVMByIDInGroup, where the profiles answer with `results`.
unfoldable pub find_vm_by_id_in_group : List (List (Option Guest)) → ℤ → FindResult
unfolding group_vms has_id
find_vm_by_id_in_group results vm_id = result_of vm_id (filter (has_id vm_id) (group_vms results))
