-- ===== src/Ansible/Inventory.antt =====
-- BuildInventoryWithFormat and the rendering of an inventory. yaml.Marshal is an argument: it answers
-- for the variables of all hosts and the groups with their hosts.
use pvetui.Base.{
  List, [], ◌∷◌, ◌++◌, Option, none, some, Bool, false, not, ◌&&◌, ◌||◌, Str, str, str_eq,
  if◌then◌else◌, Dict, get, put, trim_space, to_lower, has_prefix, itoa,
}
use pvetui.Ansible.{
  InventoryDefaults, InventoryHost, Node, Vm, sanitize_identifier, unique_alias, choose_host_target,
  node_vars, guest_vars, node_groups, guest_groups, is_blank,
}

-- Where there is a target, the host is appended.
abbrev pub push_node : InventoryDefaults → List InventoryHost → Node → Str → List InventoryHost
push_node defaults hosts node target =
    if str_eq target []
    then hosts
    else hosts
      ++ record {
        alias = unique_alias hosts (str "node_" ++ sanitize_identifier node.name);
        target = target;
        group_names = node_groups node;
        vars = node_vars defaults node target;
      }
        ∷ []

unfoldable pub push_nodes :
    InventoryDefaults → List InventoryHost → List (Option Node) → List InventoryHost
unfolding unique_alias sanitize_identifier node_vars choose_host_target
push_nodes defaults hosts [] = hosts
push_nodes defaults hosts (none ∷ nodes) = push_nodes defaults hosts nodes
push_nodes defaults hosts (some node ∷ nodes) =
    push_nodes defaults
      (push_node defaults hosts node (choose_host_target (node.ip ∷ node.name ∷ []))) nodes

-- fmt.Sprintf("guest_%d_%s", id, name)
abbrev pub guest_alias : Vm → Str
guest_alias guest = str "guest_" ++ (itoa guest.id ++ (b'_' ∷ sanitize_identifier guest.name))

abbrev pub push_guest : InventoryDefaults → List InventoryHost → Vm → Str → List InventoryHost
push_guest defaults hosts guest target =
    if guest.template || str_eq target []
    then hosts
    else hosts
      ++ record {
        alias = unique_alias hosts (guest_alias guest);
        target = target;
        group_names = guest_groups guest;
        vars = guest_vars defaults guest target;
      }
        ∷ []

unfoldable pub push_guests :
    InventoryDefaults → List InventoryHost → List (Option Vm) → List InventoryHost
unfolding unique_alias sanitize_identifier guest_vars guest_groups choose_host_target itoa
push_guests defaults hosts [] = hosts
push_guests defaults hosts (none ∷ guests) = push_guests defaults hosts guests
push_guests defaults hosts (some guest ∷ guests) =
    push_guests defaults
      (push_guest defaults hosts guest (choose_host_target (guest.ip ∷ guest.name ∷ []))) guests

unfoldable pub inventory_hosts :
    List (Option Node) → List (Option Vm) → InventoryDefaults → List InventoryHost
unfolding push_nodes push_guests
inventory_hosts nodes guests defaults = push_guests defaults (push_nodes defaults [] nodes) guests

abbrev pub hosts_of : Option (List InventoryHost) → List InventoryHost
hosts_of none = []
hosts_of (some hosts) = hosts

-- groups[group] = append(groups[group], host)
unfoldable pub add_to_groups :
    InventoryHost → List Str → Dict (List InventoryHost) → Dict (List InventoryHost)
unfolding get put
add_to_groups host [] groups = groups
add_to_groups host (g ∷ gs) groups =
    add_to_groups host gs (put g (hosts_of (get g groups) ++ host ∷ []) groups)

unfoldable pub group_hosts :
    List InventoryHost → Dict (List InventoryHost) → Dict (List InventoryHost)
unfolding add_to_groups
group_hosts [] groups = groups
group_hosts (host ∷ hosts) groups = group_hosts hosts (add_to_groups host host.group_names groups)

unfoldable pub is_shareable : Str → Bool
unfolding has_prefix
is_shareable key = has_prefix key (str "ansible_") && not (str_eq key (str "ansible_host"))

unfoldable pub first_shared : Dict Str → Dict Str
unfolding trim_space is_shareable
first_shared [] = []
first_shared ((k, v) ∷ vars) =
    let rest = first_shared vars in
    if is_blank v || not (is_shareable k) then rest else (k, trim_space v) ∷ rest

abbrev pub text_of : Option Str → Str
text_of none = []
text_of (some s) = s

-- The entries of `shared` that this host has too.
unfoldable pub keep_shared : Dict Str → Dict Str → Dict Str
unfolding trim_space get
keep_shared vars [] = []
keep_shared vars ((k, expected) ∷ shared) =
    let rest = keep_shared vars shared in
    let actual = trim_space (text_of (get k vars)) in
    if str_eq actual [] || not (str_eq actual expected) then rest else (k, expected) ∷ rest

unfoldable pub shared_among : Dict Str → List InventoryHost → Dict Str
unfolding keep_shared
shared_among shared [] = shared
shared_among shared (host ∷ hosts) = shared_among (keep_shared host.vars shared) hosts

unfoldable pub compute_shared_ansible_vars : List InventoryHost → Dict Str
unfolding first_shared shared_among
compute_shared_ansible_vars [] = []
compute_shared_ansible_vars (host ∷ hosts) = shared_among (first_shared host.vars) hosts

-- Whether a variable of a host is that of all hosts.
abbrev pub is_shared : Option Str → Str → Bool
is_shared none trimmed = false
is_shared (some shared) trimmed = str_eq shared trimmed

unfoldable pub filter_host_vars : Dict Str → Dict Str → Dict Str
unfolding trim_space get
filter_host_vars [] shared = []
filter_host_vars ((k, v) ∷ vars) shared =
    let rest = filter_host_vars vars shared in
    if is_blank v || is_shared (get k shared) (trim_space v) then rest else (k, trim_space v) ∷ rest

unfoldable pub normalize_inventory_format : Str → Str
unfolding to_lower trim_space
normalize_inventory_format format =
    if str_eq (to_lower (trim_space format)) (str "ini") then str "ini" else str "yaml"

unfoldable pub normalize_inventory_style : Str → Str
unfolding to_lower trim_space
normalize_inventory_style style =
    if str_eq (to_lower (trim_space style)) (str "expanded") then str "expanded" else str "compact"

unfoldable pub shared_for : List InventoryHost → Str → Dict Str
unfolding compute_shared_ansible_vars
shared_for hosts style =
    if str_eq style (str "compact") then compute_shared_ansible_vars hosts else []
