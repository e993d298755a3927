-- ===== src/Ansible.antt =====
-- internal/plugins/ansible/inventory.go: the text helpers of the Ansible inventory, and its hosts and
-- groups. A nil node or guest is none. The bytes of a text stand for its characters, of which the code
-- keeps those of ASCII only.
pub mod Fresh
pub mod Bytes
pub mod Aliases
pub mod Inventory
pub mod Rendering
pub mod Shared
pub mod Variables
pub mod Groups
pub mod Tests
use pvetui.Base.{
  ℕ, zero, suc, ◌+◌, List, [], ◌∷◌, ◌++◌, Option, none, some, Bool, true, false, not, ◌&&◌, ◌||◌,
  Str, str, str_eq, str_lt, leb, ◌==◌, if◌then◌else◌, Dict, get, put, delete, keys, length,
  sort_strings, trim_space, to_lower, has_prefix, equal_fold, ℤ, pos, itoa,
}

pub record InventoryDefaults : Type 0 where
  pub node_ssh_user : Str
  pub vm_ssh_user : Str
  pub ssh_private_key_file : Str
  pub default_password : Str
  pub inventory_vars : Dict Str
  pub style : Str

pub record InventoryHost : Type 0 where
  pub alias : Str
  pub target : Str
  pub group_names : List Str
  pub vars : Dict Str

-- The fields of a node and of a guest that this code reads; `kind` is the field Type.
pub record Node : Type 0 where
  pub name : Str
  pub ip : Str
  pub online : Bool
  pub source_profile : Str

pub record Vm : Type 0 where
  pub id : ℤ
  pub name : Str
  pub node : Str
  pub kind : Str
  pub status : Str
  pub ip : Str
  pub os_type : Str
  pub tags : Str
  pub template : Bool
  pub source_profile : Str

abbrev pub is_alnum : ℕ → Bool
is_alnum c = (leb b'a' c && leb c b'z') || (leb b'0' c && leb c b'9')

-- The loop over the characters; the first argument is prevUnderscore.
unfoldable pub underscored : Bool → Str → Str
underscored prev [] = []
underscored prev (c ∷ s) =
    let rest = underscored (not (is_alnum c)) s in
    if is_alnum c then c ∷ rest else if prev then rest else b'_' ∷ rest

unfoldable pub trim_left_underscores : Str → Str
trim_left_underscores [] = []
trim_left_underscores (c ∷ s) =
    let rest = trim_left_underscores s in if c == b'_' then rest else c ∷ s

unfoldable pub trim_right_underscores : Str → Str
trim_right_underscores [] = []
trim_right_underscores (c ∷ s) =
    let rest = trim_right_underscores s in if str_eq rest [] && c == b'_' then [] else c ∷ rest

abbrev pub or_unknown : Str → Str
or_unknown s = if str_eq s [] then str "unknown" else s

unfoldable pub sanitize_identifier : Str → Str
unfolding underscored trim_left_underscores trim_right_underscores to_lower trim_space
sanitize_identifier raw =
    let lower = to_lower (trim_space raw) in
    if str_eq lower []
    then str "unknown"
    else or_unknown (trim_right_underscores (trim_left_underscores (underscored false lower)))

unfoldable pub has_alias : List InventoryHost → Str → Bool
has_alias [] alias = false
has_alias (host ∷ hosts) alias = str_eq host.alias alias || has_alias hosts alias

abbrev pub numbered : Str → ℕ → Str
numbered base idx = base ++ (b'_' ∷ itoa (pos idx))

-- The loop, on fuel: `idx` is the number of the alias that is tried.
unfoldable pub alias_from : ℕ → List InventoryHost → Str → ℕ → Str → Str
unfolding has_alias itoa
alias_from zero existing base idx alias = alias
alias_from (suc fuel) existing base idx alias =
    let next = alias_from fuel existing base (suc idx) (numbered base (suc idx)) in
    if has_alias existing alias then next else alias

-- One more try than there are hosts is enough.
unfoldable pub unique_alias : List InventoryHost → Str → Str
unfolding alias_from
unique_alias existing base =
    let base' = if str_eq base [] then str "host" else base in
    alias_from (suc (length existing)) existing base' 1 base'

unfoldable pub choose_host_target : List Str → Str
unfolding trim_space
choose_host_target [] = []
choose_host_target (c ∷ candidates) =
    let rest = choose_host_target candidates in
    if str_eq (trim_space c) [] then rest else trim_space c

unfoldable pub merge_inventory_vars : Dict Str → Dict Str → Dict Str
unfolding trim_space put
merge_inventory_vars dest [] = dest
merge_inventory_vars dest ((k, v) ∷ extra) =
    merge_inventory_vars
      (if str_eq (trim_space k) [] then dest else put (trim_space k) (trim_space v) dest) extra

-- Sets a key where the test holds.
unfoldable pub put_if : Bool → Str → Str → Dict Str → Dict Str
unfolding put
put_if test k v m = if test then put k v m else m

abbrev pub is_blank : Str → Bool
is_blank s = str_eq (trim_space s) []

unfoldable pub put_defaults : InventoryDefaults → Dict Str → Dict Str
unfolding put_if merge_inventory_vars trim_space
put_defaults defaults vars =
    merge_inventory_vars
      (put_if (not (is_blank defaults.default_password)) (str "ansible_password")
        (trim_space defaults.default_password)
        (put_if (not (is_blank defaults.ssh_private_key_file)) (str "ansible_ssh_private_key_file")
          (trim_space defaults.ssh_private_key_file) vars))
      defaults.inventory_vars

abbrev pub bool_text : Bool → Str
bool_text true = str "true"
bool_text false = str "false"

-- The map as it is written down, before the optional keys.
abbrev pub node_basics : InventoryDefaults → Node → Str → Dict Str
node_basics defaults node target =
    (str "ansible_host", target)
    ∷ (str "ansible_user", defaults.node_ssh_user)
    ∷ (str "pvetui_kind", str "node")
    ∷ (str "pvetui_node", node.name)
    ∷ (str "pvetui_online", bool_text node.online)
    ∷ []

unfoldable pub node_vars : InventoryDefaults → Node → Str → Dict Str
unfolding put_if put_defaults
node_vars defaults node target = put_defaults defaults (
    put_if (not (str_eq node.source_profile [])) (str "pvetui_source_profile") node.source_profile
      (node_basics defaults node target))

unfoldable pub guest_basics : InventoryDefaults → Vm → Str → Dict Str
unfolding trim_space itoa
guest_basics defaults guest target =
    (str "ansible_host", target)
    ∷ (str "ansible_user", defaults.vm_ssh_user)
    ∷ (str "pvetui_kind", str "guest")
    ∷ (str "pvetui_guest_name", guest.name)
    ∷ (str "pvetui_guest_id", itoa guest.id)
    ∷ (str "pvetui_guest_type", guest.kind)
    ∷ (str "pvetui_guest_os", trim_space guest.os_type)
    ∷ (str "pvetui_status", guest.status)
    ∷ (str "pvetui_node", guest.node)
    ∷ []

unfoldable pub guest_vars : InventoryDefaults → Vm → Str → Dict Str
unfolding put_if put_defaults trim_space guest_basics
guest_vars defaults guest target = put_defaults defaults (
    put_if (not (is_blank guest.tags)) (str "pvetui_tags") guest.tags (
      put_if (not (str_eq guest.source_profile [])) (str "pvetui_source_profile")
        guest.source_profile (guest_basics defaults guest target)))

abbrev pub node_groups : Node → List Str
node_groups node = str "proxmox_nodes" ∷ (if node.online then str "running" else str "stopped") ∷ []

unfoldable pub guest_groups : Vm → List Str
unfolding sanitize_identifier equal_fold
guest_groups guest =
    str "proxmox_guests"
    ∷ (str "by_node_" ++ sanitize_identifier guest.node)
    ∷ ((if str_eq guest.kind (str "qemu")
          then str "qemu" ∷ []
          else if str_eq guest.kind (str "lxc")
          then str "lxc" ∷ []
          else [])
        ++ (if equal_fold guest.status (str "running") then str "running" else str "stopped") ∷ [])
