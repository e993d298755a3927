-- ===== src/Ansible/Aliases.antt =====
-- No two aliases of an inventory are the same, and what its aliases and groups are made of.
use pvetui.Base.{
  List, [], ◌∷◌, ◌++◌, Option, none, some, Bool, true, false, ◌||◌, Str, str, str_eq, str_eq_sym,
  if◌then◌else◌, itoa, All, All-append, ◌≡◌, inl, inr, refl, arith, Bool-cases, equal_fold,
}
use pvetui.Ansible.{
  InventoryDefaults, InventoryHost, Node, Vm, sanitize_identifier, has_alias, choose_host_target,
  node_groups, guest_groups,
}
use pvetui.Ansible.Inventory.{
  push_node, push_nodes, push_guest, push_guests, guest_alias, inventory_hosts,
}
use pvetui.Ansible.Fresh.{unique_alias_fresh}
use pvetui.Ansible.Bytes.{
  Plain, join-Plain, unique_alias-Plain, literal-Plain, itoa-Plain, sanitize_identifier-Plain,
}

-- Each alias differs from those behind it.
abbrev pub DistinctAliases : List InventoryHost → Type 0
DistinctAliases [] = Unit
DistinctAliases (h ∷ hosts) = (has_alias hosts h.alias ≡ false) × DistinctAliases hosts

abbrev pub PlainNames : InventoryHost → Type 0
PlainNames h = Plain h.alias × All Plain h.group_names

abbrev pub AreFine : List InventoryHost → Type 0
AreFine hosts = DistinctAliases hosts × All PlainNames hosts

has_alias-append :
    (hosts : List InventoryHost) (h : InventoryHost) (a : Str)
    → has_alias (hosts ++ h ∷ []) a ≡ has_alias hosts a || str_eq h.alias a
unfolding has_alias
has_alias-append [] h a = ground arith
has_alias-append (x ∷ hosts) h a = rw (has_alias-append hosts h a) (ground arith)

append-DistinctAliases :
    (hosts : List InventoryHost) (h : InventoryHost)
    → DistinctAliases hosts
    → has_alias hosts h.alias ≡ false
    → DistinctAliases (hosts ++ h ∷ [])
unfolding has_alias
append-DistinctAliases [] h d f = (refl, tt)
append-DistinctAliases (x ∷ hosts) h d f = (
  ground (arith, has_alias-append hosts h x.alias, str_eq_sym x.alias h.alias),
  append-DistinctAliases hosts h d.1 (ground arith),
)

append-AreFine :
    (hosts : List InventoryHost) (h : InventoryHost)
    → AreFine hosts
    → has_alias hosts h.alias ≡ false
    → PlainNames h
    → AreFine (hosts ++ h ∷ [])
append-AreFine hosts h fine fresh names = (
  append-DistinctAliases hosts h fine.0 fresh,
  All-append PlainNames hosts (h ∷ []) fine.1 (names, tt),
)

status-Plain : (b : Bool) → Plain (if b then str "running" else str "stopped")
status-Plain true = literal-Plain (str "running") refl
status-Plain false = literal-Plain (str "stopped") refl

node_groups-Plain : (node : Node) → All Plain (node_groups node)
node_groups-Plain node = (literal-Plain (str "proxmox_nodes") refl, (status-Plain node.online, tt))

guest_groups-Plain : (guest : Vm) → All Plain (guest_groups guest)
unfolding guest_groups
guest_groups-Plain guest = (
  literal-Plain (str "proxmox_guests") refl,
  (
    join-Plain (str "by_node_") (sanitize_identifier guest.node)
        (literal-Plain (str "by_node_") refl) (sanitize_identifier-Plain guest.node),
    All-append Plain kind_groups (status ∷ []) of_kind
        (status-Plain (equal_fold guest.status (str "running")), tt),
  ),
)
  where
    status : Str
    status = if equal_fold guest.status (str "running") then str "running" else str "stopped"

    kind_groups : List Str
    kind_groups =
        if str_eq guest.kind (str "qemu")
        then str "qemu" ∷ []
        else if str_eq guest.kind (str "lxc")
        then str "lxc" ∷ []
        else []

    of_kind : All Plain kind_groups
    of_kind = elim (Bool-cases (str_eq guest.kind (str "qemu"))) [
      | inl y ↦ rw y (literal-Plain (str "qemu") refl, tt)
      | inr n ↦ elim (Bool-cases (str_eq guest.kind (str "lxc"))) [
        | inl y ↦ rw (n, y) (literal-Plain (str "lxc") refl, tt)
        | inr m ↦ rw (n, m) tt
      ]
    ]

push_node-AreFine :
    (defaults : InventoryDefaults) (hosts : List InventoryHost) (node : Node) (target : Str)
    → AreFine hosts
    → AreFine (push_node defaults hosts node target)
push_node-AreFine defaults hosts node target h = elim (Bool-cases (str_eq target [])) [
  | inl y ↦ rw y h
  | inr n ↦ rw n (
      append-AreFine hosts _ h (unique_alias_fresh hosts base)
        (unique_alias-Plain hosts base plain, node_groups-Plain node))
]
  where
    base : Str
    base = str "node_" ++ sanitize_identifier node.name

    plain : Plain base
    plain =
        join-Plain (str "node_") (sanitize_identifier node.name) (literal-Plain (str "node_") refl)
          (sanitize_identifier-Plain node.name)

push_nodes-AreFine :
    (defaults : InventoryDefaults) (hosts : List InventoryHost) (nodes : List (Option Node))
    → AreFine hosts
    → AreFine (push_nodes defaults hosts nodes)
unfolding push_nodes
push_nodes-AreFine defaults hosts [] h = h
push_nodes-AreFine defaults hosts (none ∷ nodes) h = push_nodes-AreFine defaults hosts nodes h
push_nodes-AreFine defaults hosts (some node ∷ nodes) h =
    push_nodes-AreFine defaults
      (push_node defaults hosts node (choose_host_target (node.ip ∷ node.name ∷ []))) nodes
      (push_node-AreFine defaults hosts node _ h)

guest_alias-Plain : (guest : Vm) → Plain (guest_alias guest)
guest_alias-Plain guest = join-Plain (str "guest_") _ (literal-Plain (str "guest_") refl) (
    join-Plain (itoa guest.id) _ (itoa-Plain guest.id) (refl, sanitize_identifier-Plain guest.name))

push_guest-AreFine :
    (defaults : InventoryDefaults) (hosts : List InventoryHost) (guest : Vm) (target : Str)
    → AreFine hosts
    → AreFine (push_guest defaults hosts guest target)
push_guest-AreFine defaults hosts guest target h =
    elim (Bool-cases (guest.template || str_eq target [])) [
      | inl y ↦ rw y h
      | inr n ↦ rw n (
          append-AreFine hosts _ h (unique_alias_fresh hosts (guest_alias guest))
            (unique_alias-Plain hosts _ (guest_alias-Plain guest), guest_groups-Plain guest))
    ]

push_guests-AreFine :
    (defaults : InventoryDefaults) (hosts : List InventoryHost) (guests : List (Option Vm))
    → AreFine hosts
    → AreFine (push_guests defaults hosts guests)
unfolding push_guests
push_guests-AreFine defaults hosts [] h = h
push_guests-AreFine defaults hosts (none ∷ guests) h = push_guests-AreFine defaults hosts guests h
push_guests-AreFine defaults hosts (some guest ∷ guests) h =
    push_guests-AreFine defaults
      (push_guest defaults hosts guest (choose_host_target (guest.ip ∷ guest.name ∷ []))) guests
      (push_guest-AreFine defaults hosts guest _ h)

-- Whatever the nodes and guests are called, no two hosts of an inventory have the same alias, and the
-- aliases and the names of the groups hold only lower case letters, digits, underscores and minus signs,
-- so that no name breaks the lines and headers of the inventory.
pub inventory_hosts-AreFine :
    (nodes : List (Option Node)) (guests : List (Option Vm)) (defaults : InventoryDefaults)
    → AreFine (inventory_hosts nodes guests defaults)
unfolding inventory_hosts
inventory_hosts-AreFine nodes guests defaults =
    push_guests-AreFine defaults _ guests (push_nodes-AreFine defaults [] nodes (tt, tt))
