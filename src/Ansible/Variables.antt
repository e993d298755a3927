-- ===== src/Ansible/Variables.antt =====
-- The variables of the hosts that BuildInventory makes, in both styles.
use pvetui.Base.{
  List, [], ◌∷◌, Option, none, some, Bool, true, false, ◌||◌, Str, str_eq, if◌then◌else◌, Dict, get,
  put, Distinct, put-Distinct, trim_space, Elem, All, All-append, ◌≡◌, inl, inr, refl, Bool-cases,
}
use pvetui.Ansible.{
  InventoryDefaults, InventoryHost, Node, Vm, choose_host_target, merge_inventory_vars, put_if,
  put_defaults, node_basics, guest_basics, node_vars, guest_vars,
}
use pvetui.Ansible.Inventory.{
  push_node, push_nodes, push_guest, push_guests, inventory_hosts, shared_for,
}
use pvetui.Ansible.Shared.{DistinctVars, resolved, shown, resolved-shown}

merge_inventory_vars-Distinct :
    (dest extra : Dict Str) → Distinct dest → Distinct (merge_inventory_vars dest extra)
unfolding merge_inventory_vars
merge_inventory_vars-Distinct dest [] d = d
merge_inventory_vars-Distinct dest ((k, v) ∷ extra) d =
    merge_inventory_vars-Distinct
      (if str_eq (trim_space k) [] then dest else put (trim_space k) (trim_space v) dest) extra step
  where
    step :
        Distinct (if str_eq (trim_space k) [] then dest else put (trim_space k) (trim_space v) dest)
    step = elim (Bool-cases (str_eq (trim_space k) [])) [
      | inl y ↦ rw y d
      | inr n ↦ rw n (put-Distinct (trim_space k) (trim_space v) dest d)
    ]

put_if-Distinct :
    (test : Bool) (k v : Str) (vars : Dict Str) → Distinct vars → Distinct (put_if test k v vars)
unfolding put_if
put_if-Distinct true k v vars d = put-Distinct k v vars d
put_if-Distinct false k v vars d = d

put_defaults-Distinct :
    (defaults : InventoryDefaults) (vars : Dict Str)
    → Distinct vars
    → Distinct (put_defaults defaults vars)
unfolding put_defaults
put_defaults-Distinct defaults vars d =
    merge_inventory_vars-Distinct _ defaults.inventory_vars (search (put_if-Distinct, d))

node_basics-Distinct :
    (defaults : InventoryDefaults) (node : Node) (target : Str)
    → Distinct (node_basics defaults node target)
unfolding get str_eq
node_basics-Distinct defaults node target = (refl, (refl, (refl, (refl, (refl, tt)))))

node_vars-Distinct :
    (defaults : InventoryDefaults) (node : Node) (target : Str)
    → Distinct (node_vars defaults node target)
unfolding node_vars
node_vars-Distinct defaults node target =
    search (put_defaults-Distinct, put_if-Distinct, node_basics-Distinct)

guest_basics-Distinct :
    (defaults : InventoryDefaults) (guest : Vm) (target : Str)
    → Distinct (guest_basics defaults guest target)
unfolding guest_basics get str_eq
guest_basics-Distinct defaults guest target =
    (refl, (refl, (refl, (refl, (refl, (refl, (refl, (refl, (refl, tt)))))))))

guest_vars-Distinct :
    (defaults : InventoryDefaults) (guest : Vm) (target : Str)
    → Distinct (guest_vars defaults guest target)
unfolding guest_vars
guest_vars-Distinct defaults guest target =
    search (put_defaults-Distinct, put_if-Distinct, guest_basics-Distinct)

push_node-vars :
    (defaults : InventoryDefaults) (hosts : List InventoryHost) (node : Node) (target : Str)
    → All DistinctVars hosts
    → All DistinctVars (push_node defaults hosts node target)
push_node-vars defaults hosts node target h = elim (Bool-cases (str_eq target [])) [
  | inl y ↦ rw y h
  | inr n ↦ rw n (All-append DistinctVars hosts _ h (node_vars-Distinct defaults node target, tt))
]

push_nodes-vars :
    (defaults : InventoryDefaults) (hosts : List InventoryHost) (nodes : List (Option Node))
    → All DistinctVars hosts
    → All DistinctVars (push_nodes defaults hosts nodes)
unfolding push_nodes
push_nodes-vars defaults hosts [] h = h
push_nodes-vars defaults hosts (none ∷ nodes) h = push_nodes-vars defaults hosts nodes h
push_nodes-vars defaults hosts (some node ∷ nodes) h =
    push_nodes-vars defaults
      (push_node defaults hosts node (choose_host_target (node.ip ∷ node.name ∷ []))) nodes
      (push_node-vars defaults hosts node _ h)

push_guest-vars :
    (defaults : InventoryDefaults) (hosts : List InventoryHost) (guest : Vm) (target : Str)
    → All DistinctVars hosts
    → All DistinctVars (push_guest defaults hosts guest target)
push_guest-vars defaults hosts guest target h =
    elim (Bool-cases (guest.template || str_eq target [])) [
      | inl y ↦ rw y h
      | inr n ↦
          rw n (All-append DistinctVars hosts _ h (guest_vars-Distinct defaults guest target, tt))
    ]

push_guests-vars :
    (defaults : InventoryDefaults) (hosts : List InventoryHost) (guests : List (Option Vm))
    → All DistinctVars hosts
    → All DistinctVars (push_guests defaults hosts guests)
unfolding push_guests
push_guests-vars defaults hosts [] h = h
push_guests-vars defaults hosts (none ∷ guests) h = push_guests-vars defaults hosts guests h
push_guests-vars defaults hosts (some guest ∷ guests) h =
    push_guests-vars defaults
      (push_guest defaults hosts guest (choose_host_target (guest.ip ∷ guest.name ∷ []))) guests
      (push_guest-vars defaults hosts guest _ h)

-- The variable maps that the renderers of either style write, before any text is written: a variable of a
-- host, looked up in the map of the host's own line and else in the map of the variables of all hosts, is
-- the value that the host was given without the white space around it, and it is missing from both
-- exactly when it was not given or is blank. How the maps are written, with quotes, is not meant.
pub resolved-inventory_hosts :
    (k style : Str) (host : InventoryHost) (nodes : List (Option Node)) (guests : List (Option Vm))
    (defaults : InventoryDefaults)
    → Elem host (inventory_hosts nodes guests defaults)
    → resolved host.vars (shared_for (inventory_hosts nodes guests defaults) style) k
      ≡ shown (get k host.vars)
unfolding inventory_hosts
resolved-inventory_hosts k style host nodes guests defaults m =
    resolved-shown k style host _
      (push_guests-vars defaults _ guests (push_nodes-vars defaults [] nodes tt)) m
