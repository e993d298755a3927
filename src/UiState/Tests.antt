-- ===== src/UiState/Tests.antt =====
-- Runs of the state at concrete inputs, and the theorems applied there.
use pvetui.Base.{
  Occurs, [], ◌∷◌, none, some, true, false, str, str_eq, ◌≡◌, ◌↔◌, ◌⊎◌, refl, inl, pos, get, put,
  Elem, to_lower,
}
use pvetui.UiState.{
  State, SearchState, VmFilterOptions, Node, Vm, ClusterTask, filter_nodes, filter_vms,
  filter_tasks, get_search_state, has_active_vm_filter, normalized, normalized_options,
  vm_filters_of, set_vm_pending, is_vm_pending,
}
use pvetui.UiState.Filters.{NodeShows, TaskShows, VmShows, filter_lists_iff}

abbrev alpha : Node
alpha = record { name = str "Alpha"; ip = str "10.0.0.1"; online = true }

abbrev beta : Node
beta = record { name = str "beta"; ip = str "10.0.0.2"; online = false }

abbrev web : Vm
web = record {
  id = pos 101;
  name = str "Web";
  node = str "Alpha";
  kind = str "qemu";
  status = str "running";
  ip = [];
  tags = str "prod;http";
}

abbrev db : Vm
db = record {
  id = pos 102;
  name = str "db";
  node = str "beta";
  kind = str "lxc";
  status = str "stopped";
  ip = [];
  tags = str "prod";
}

abbrev backup : ClusterTask
backup = record {
  id = str "101";
  node = str "alpha";
  kind = str "vzdump";
  status = str "OK";
  user = str "root@pam";
  upid = str "UPID:1";
}

abbrev guests : VmFilterOptions → SearchState
guests f = record {
  current_page = str "Guests";
  filter = str " ";
  selected_index = pos 0;
  vm_filters = f;
}

abbrev blank : VmFilterOptions
blank = record { status = []; kind = str " "; node = []; tag_contains = [] }

abbrev running : VmFilterOptions
running = record { status = str " Running"; kind = []; node = []; tag_contains = str "PROD" }

abbrev state : VmFilterOptions → State
state f = record {
  search_states = (str "Guests", some (guests f)) ∷ [];
  filtered_nodes = [];
  filtered_vms = [];
  filtered_tasks = [];
  original_nodes = some alpha ∷ none ∷ some beta ∷ [];
  original_vms = some web ∷ none ∷ some db ∷ [];
  original_tasks = some backup ∷ [];
  pending_vm_operations = [];
  pending_node_operations = [];
}

nodes_by_name : (filter_nodes (state blank) (str "ALPH")).filtered_nodes ≡ some alpha ∷ []
unfolding filter_nodes str_eq
nodes_by_name = refl

nodes_by_status : (filter_nodes (state blank) (str "offl")).filtered_nodes ≡ some beta ∷ []
unfolding filter_nodes str_eq
nodes_by_status = refl

vms_by_criteria : (filter_vms (state running) []).filtered_vms ≡ some web ∷ []
unfolding filter_vms str_eq
vms_by_criteria = refl

vms_by_id : (filter_vms (state blank) (str " 102 ")).filtered_vms ≡ some db ∷ []
unfolding filter_vms str_eq
vms_by_id = refl

all_vms : (filter_vms (state blank) (str " ")).filtered_vms ≡ some web ∷ none ∷ some db ∷ []
unfolding filter_vms str_eq
all_vms = refl

marked :
    is_vm_pending (set_vm_pending (state blank) web (str "Starting")) web ≡ (true, str "Starting")
unfolding set_vm_pending is_vm_pending str_eq get put
marked = refl

lph : Occurs (str "lph") (str "alpha")
lph = record { before = str "a"; after = str "a"; split = refl }

filter_lists_iff_example :
    (Elem (some alpha) (filter_nodes (state running) (str "LPH")).filtered_nodes ↔ (
      Elem (some alpha) (state running).original_nodes
      × ((str "LPH" ≡ []) ⊎ NodeShows (to_lower (str "LPH")) alpha)))
    × (Elem (some backup) (filter_tasks (state running) (str "LPH")).filtered_tasks ↔ (
        Elem (some backup) (state running).original_tasks
        × ((str "LPH" ≡ []) ⊎ TaskShows (to_lower (str "LPH")) backup)))
    × (Elem (some web) (filter_vms (state running) (str "LPH")).filtered_vms ↔ (
        Elem (some web) (state running).original_vms
        × VmShows
            (normalized (str "LPH"))
            (normalized_options (vm_filters_of (get_search_state (state running) (str "Guests"))))
            web))
filter_lists_iff_example = filter_lists_iff (state running) (str "LPH") alpha backup web

alpha_shown : Elem (some alpha) (filter_nodes (state blank) (str "alpha")).filtered_nodes
unfolding filter_nodes str_eq
alpha_shown = inl refl

backup_shown : Elem (some backup) (filter_tasks (state blank) (str "alpha")).filtered_tasks
unfolding filter_tasks str_eq
backup_shown = inl refl

found_search : get_search_state (state blank) (str "Guests") ≡ some (guests blank)
unfolding get_search_state str_eq
found_search = refl

blank_inactive : has_active_vm_filter (some (guests blank)) ≡ false
unfolding has_active_vm_filter str_eq
blank_inactive = refl

not_marked : (is_vm_pending (state blank) web).0 ≡ false
unfolding is_vm_pending str_eq get
not_marked = refl
