-- ===== src/UiState.antt =====
-- internal/ui/models/state.go: the lists that the interface shows, their filters, and the operations
-- that are pending. `GlobalState` is the record State; of the guests, nodes and tasks of pkg/api it
-- holds the fields that this code reads. A pointer is an Option, with none for nil.
pub mod Matching
pub mod Filters
pub mod Narrowing
pub mod Pending
pub mod Tests
use pvetui.Base.{
  ◌<◌, List, [], ◌∷◌, ◌++◌, Option, none, some, Bool, true, false, not, ◌&&◌, ◌||◌, Str, str,
  str_eq, ltb, length, if◌then◌else◌, Dict, get, put, delete, ℤ, itoa, contains, to_lower,
  trim_space, equal_fold,
}

pub record VmFilterOptions : Type 0 where
  status : Str
  kind : Str
  node : Str
  tag_contains : Str

pub record SearchState : Type 0 where
  current_page : Str
  filter : Str
  selected_index : ℤ
  vm_filters : VmFilterOptions

pub record Node : Type 0 where
  name : Str
  ip : Str
  online : Bool

-- `kind` is the field Type, here and in a task.
pub record Vm : Type 0 where
  id : ℤ
  name : Str
  node : Str
  kind : Str
  status : Str
  ip : Str
  tags : Str

pub record ClusterTask : Type 0 where
  id : Str
  node : Str
  kind : Str
  status : Str
  user : Str
  upid : Str

pub record State : Type 0 where
  search_states : Dict (Option SearchState)
  filtered_nodes : List (Option Node)
  filtered_vms : List (Option Vm)
  filtered_tasks : List (Option ClusterTask)
  original_nodes : List (Option Node)
  original_vms : List (Option Vm)
  original_tasks : List (Option ClusterTask)
  pending_vm_operations : Dict Str
  pending_node_operations : Dict Str

unfoldable pub is_zero : VmFilterOptions → Bool
unfolding trim_space
is_zero f =
    str_eq (trim_space f.status) []
    && (str_eq (trim_space f.kind) []
        && (str_eq (trim_space f.node) [] && str_eq (trim_space f.tag_contains) []))

unfoldable pub has_active_vm_filter : Option SearchState → Bool
unfolding is_zero
has_active_vm_filter none = false
has_active_vm_filter (some s) = not (str_eq (trim_space s.filter) []) || not (is_zero s.vm_filters)

abbrev pub pointer_or_nil {ℓ} : {A : Type ℓ} → Option (Option A) → Option A
pointer_or_nil none = none
pointer_or_nil (some p) = p

unfoldable pub get_search_state : State → Str → Option SearchState
unfolding get
get_search_state s component = pointer_or_nil (get component s.search_states)

-- The loop of the three filters: nil entries are skipped.
unfoldable pub keep {ℓ} : {A : Type ℓ} → (A → Bool) → List (Option A) → List (Option A)
keep p [] = []
keep p (none ∷ xs) = keep p xs
keep p (some x ∷ xs) = let rest = keep p xs in if p x then some x ∷ rest else rest

abbrev pub status_text : Bool → Str
status_text online = if online then str "online" else str "offline"

unfoldable pub node_matches : Str → Node → Bool
unfolding contains to_lower
node_matches filter node =
    contains (to_lower node.name) filter
    || (contains (to_lower node.ip) filter || contains (status_text node.online) filter)

unfoldable pub filter_nodes : State → Str → State
unfolding keep node_matches
filter_nodes s filter = record s {
  filtered_nodes =
      if str_eq filter []
      then s.original_nodes
      else keep (node_matches (to_lower filter)) s.original_nodes;
}

-- Filter criteria after TrimSpace and ToLower.
unfoldable pub normalized : Str → Str
unfolding to_lower trim_space
normalized s = to_lower (trim_space s)

abbrev no_options : VmFilterOptions
no_options = record { status = []; kind = []; node = []; tag_contains = [] }

abbrev pub vm_filters_of : Option SearchState → VmFilterOptions
vm_filters_of none = no_options
vm_filters_of (some s) = s.vm_filters

-- The free-text part of the test of a guest.
unfoldable pub vm_text_matches : Str → Vm → Bool
unfolding contains to_lower itoa
vm_text_matches filter vm =
    contains (to_lower vm.name) filter
    || (contains (itoa vm.id) filter
        || (contains (to_lower vm.kind) filter
            || (contains (to_lower vm.status) filter
                || (contains (to_lower vm.node) filter
                    || (contains (to_lower vm.ip) filter || contains (to_lower vm.tags) filter)))))

-- The criteria are normalized; an empty one is no restriction.
unfoldable pub vm_matches : Str → VmFilterOptions → Vm → Bool
unfolding vm_text_matches equal_fold
vm_matches filter f vm =
    (str_eq f.status [] || equal_fold vm.status f.status)
    && ((str_eq f.kind [] || equal_fold vm.kind f.kind)
        && ((str_eq f.node [] || equal_fold vm.node f.node)
            && ((str_eq f.tag_contains [] || contains (to_lower vm.tags) f.tag_contains)
                && (str_eq filter [] || vm_text_matches filter vm))))

unfoldable pub normalized_options : VmFilterOptions → VmFilterOptions
unfolding normalized
normalized_options f = record {
  status = normalized f.status;
  kind = normalized f.kind;
  node = normalized f.node;
  tag_contains = normalized f.tag_contains;
}

abbrev pub no_criteria : Str → VmFilterOptions → Bool
no_criteria filter f =
    str_eq filter []
    && (str_eq f.status [] && (str_eq f.kind [] && (str_eq f.node [] && str_eq f.tag_contains [])))

unfoldable pub filter_vms : State → Str → State
unfolding keep vm_matches get_search_state normalized_options
filter_vms s filter =
    let text = normalized filter in
    let f = normalized_options (vm_filters_of (get_search_state s (str "Guests"))) in
    record s {
      filtered_vms =
          if no_criteria text f then s.original_vms else keep (vm_matches text f) s.original_vms;
    }

unfoldable pub task_matches : Str → ClusterTask → Bool
unfolding contains to_lower
task_matches filter task =
    contains (to_lower task.id) filter
    || (contains (to_lower task.node) filter
        || (contains (to_lower task.kind) filter
            || (contains (to_lower task.status) filter
                || (contains (to_lower task.user) filter || contains (to_lower task.upid) filter))))

unfoldable pub filter_tasks : State → Str → State
unfolding keep task_matches
filter_tasks s filter = record s {
  filtered_tasks =
      if str_eq filter []
      then s.original_tasks
      else keep (task_matches (to_lower filter)) s.original_tasks;
}

-- fmt.Sprintf("%s:%d", vm.Node, vm.ID)
unfoldable pub vm_key : Vm → Str
unfolding itoa
vm_key vm = vm.node ++ b':' ∷ itoa vm.id

unfoldable pub set_vm_pending : State → Vm → Str → State
unfolding vm_key
set_vm_pending s vm operation = record s {
  pending_vm_operations = put (vm_key vm) operation s.pending_vm_operations;
}

unfoldable pub clear_vm_pending : State → Vm → State
unfolding vm_key
clear_vm_pending s vm = record s {
  pending_vm_operations = delete (vm_key vm) s.pending_vm_operations;
}

abbrev pub pending_of : Option Str → Bool × Str
pending_of none = (false, [])
pending_of (some operation) = (true, operation)

unfoldable pub is_vm_pending : State → Vm → Bool × Str
unfolding vm_key
is_vm_pending s vm = pending_of (get (vm_key vm) s.pending_vm_operations)

unfoldable pub set_node_pending : State → Node → Str → State
set_node_pending s node operation = record s {
  pending_node_operations = put node.name operation s.pending_node_operations;
}

unfoldable pub clear_node_pending : State → Node → State
clear_node_pending s node = record s {
  pending_node_operations = delete node.name s.pending_node_operations;
}

unfoldable pub is_node_pending : State → Node → Bool × Str
is_node_pending s node = pending_of (get node.name s.pending_node_operations)

unfoldable pub has_pending_operations : State → Bool
has_pending_operations s =
    ltb 0 (length s.pending_vm_operations) || ltb 0 (length s.pending_node_operations)

unfoldable pub can_vm_perform_actions : State → Vm → Bool
unfolding is_vm_pending
can_vm_perform_actions s vm = not (is_vm_pending s vm).0

unfoldable pub get_vm_pending_operation : State → Vm → Str
unfolding is_vm_pending
get_vm_pending_operation s vm =
    let (is_pending, operation) = is_vm_pending s vm in if is_pending then operation else []
