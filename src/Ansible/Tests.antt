-- ===== src/Ansible/Tests.antt =====
-- Runs of the inventory at concrete inputs, and the theorems applied there.
use pvetui.Base.{
  List, [], ◌∷◌, Option, none, some, true, false, str, str_eq, get, length, ◌≡◌, ◌↔◌, refl, inl,
  Elem, pos,
}
use pvetui.Ansible.{
  InventoryDefaults, InventoryHost, Node, Vm, has_alias, unique_alias, sanitize_identifier,
  choose_host_target, node_vars, guest_vars,
}
use pvetui.Ansible.Inventory.{inventory_hosts, group_hosts, shared_for}
use pvetui.Ansible.Rendering.{quote_if_needed}
use pvetui.Ansible.Fresh.{unique_alias_fresh}
use pvetui.Ansible.Aliases.{AreFine, inventory_hosts-AreFine}
use pvetui.Ansible.Shared.{resolved, shown}
use pvetui.Ansible.Variables.{resolved-inventory_hosts}
use pvetui.Ansible.Groups.{members, Elem-group_hosts}

abbrev plain_defaults : InventoryDefaults
plain_defaults = record {
  node_ssh_user = str "root";
  vm_ssh_user = str "root";
  ssh_private_key_file = str " /key ";
  default_password = [];
  inventory_vars = [];
  style = str "compact";
}

abbrev first_node : Node
first_node = record { name = str "pve 1"; ip = []; online = true; source_profile = [] }

abbrev second_node : Node
second_node = record {
  name = str "PVE-1";
  ip = str "10.0.0.2";
  online = false;
  source_profile = [];
}

abbrev two_nodes : List (Option Node)
two_nodes = some first_node ∷ none ∷ some second_node ∷ []

abbrev web_guest : Vm
web_guest = record {
  id = pos 100;
  name = str "web";
  node = str "pve 1";
  kind = str "qemu";
  status = str "Running";
  ip = str "10.0.0.9";
  os_type = str "l26";
  tags = [];
  template = false;
  source_profile = [];
}

abbrev one_guest : List (Option Vm)
one_guest = some web_guest ∷ []

abbrev made : List InventoryHost
made = inventory_hosts two_nodes one_guest plain_defaults

abbrev first_host : InventoryHost
first_host = record {
  alias = str "node_pve_1";
  target = str "pve 1";
  group_names = str "proxmox_nodes" ∷ str "running" ∷ [];
  vars = node_vars plain_defaults first_node (str "pve 1");
}

second_alias : sanitize_identifier (str " PVE-1_") ≡ str "pve_1"
unfolding sanitize_identifier str_eq
second_alias = refl

third_alias : unique_alias (first_host ∷ []) (str "node_pve_1") ≡ str "node_pve_1_2"
unfolding unique_alias str_eq
third_alias = refl

broken_quotes : quote_if_needed (34 ∷ []) ≡ 34 ∷ 92 ∷ 92 ∷ 34 ∷ 34 ∷ []
unfolding quote_if_needed str_eq
broken_quotes = refl

three_hosts : length made ≡ 3
unfolding inventory_hosts sanitize_identifier choose_host_target str_eq
three_hosts = refl

first_of_made : Elem first_host made
unfolding inventory_hosts sanitize_identifier choose_host_target unique_alias str_eq
first_of_made = inl refl

shared_key :
    get (str "ansible_ssh_private_key_file") (shared_for made (str "compact")) ≡ some (str "/key")
unfolding shared_for inventory_hosts sanitize_identifier choose_host_target unique_alias str_eq get
    node_vars guest_vars
shared_key = refl

unique_alias_fresh_example :
    has_alias (first_host ∷ []) (unique_alias (first_host ∷ []) (str "node_pve_1")) ≡ false
unique_alias_fresh_example = unique_alias_fresh (first_host ∷ []) (str "node_pve_1")

inventory_hosts-AreFine_example : AreFine made
inventory_hosts-AreFine_example = inventory_hosts-AreFine two_nodes one_guest plain_defaults

resolved-inventory_hosts_example :
    resolved first_host.vars (shared_for made (str "compact")) (str "ansible_ssh_private_key_file")
    ≡ shown (get (str "ansible_ssh_private_key_file") first_host.vars)
resolved-inventory_hosts_example =
    resolved-inventory_hosts (str "ansible_ssh_private_key_file") (str "compact") first_host
      two_nodes one_guest plain_defaults first_of_made

Elem-group_hosts_example :
    Elem first_host (members (str "running") (group_hosts made []))
    ↔ (Elem first_host made × Elem (str "running") first_host.group_names)
Elem-group_hosts_example = Elem-group_hosts first_host (str "running") made
