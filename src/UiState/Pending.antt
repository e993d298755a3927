-- ===== src/UiState/Pending.antt =====
-- The pending operations: one entry for each guest and for each node.
use pvetui.Base.{
  [], ◌∷◌, Bool, true, false, not, ◌&&◌, ◌||◌, Str, str_eq, if◌then◌else◌, ◌≡◌, refl, ap, ◌↔◌,
  arith, Bool-cases, inl, inr, Elem, ℤ, itoa, itoa-bytes, itoa_injective, separated_injective, put,
  get-put, get-delete, delete-put, Dict, Option, none, some, length, ltb,
}
use pvetui.UiState.{
  State, Vm, Node, vm_key, pending_of, set_vm_pending, clear_vm_pending, is_vm_pending,
  set_node_pending, clear_node_pending, is_node_pending, has_pending_operations,
  can_vm_perform_actions, get_vm_pending_operation,
}

no_colon : (n : ℤ) → Elem 58 (itoa n) → ⊥
no_colon n e = elim (itoa-bytes n 58 e) [ inl p ↦ omega (arith, p) | inr (l, u) ↦ omega (arith, u) ]

-- Two guests share a pending entry exactly where they are the same number on the same node.
vm_key_injective :
    (vm vm' : Vm) → (vm_key vm ≡ vm_key vm') ↔ ((vm.node ≡ vm'.node) × (vm.id ≡ vm'.id))
unfolding vm_key
vm_key_injective vm vm' = (
  λ e.
      let (p, q) =
        separated_injective 58 vm.node vm'.node (itoa vm.id) (itoa vm'.id) (no_colon vm.id)
          (no_colon vm'.id) e in
      (p, itoa_injective vm.id vm'.id q),
  λ e. rw (e.0, e.1) refl,
)

pending_if :
    (c : Bool) (o o' : _)
    → pending_of (if c then o else o') ≡ (if c then pending_of o else pending_of o')
pending_if true o o' = refl
pending_if false o o' = refl

-- After a guest is marked, the same guest is pending with that operation and may not act, and any other
-- guest is as before; after it is cleared, it is not pending and may act, and any other is as before.
vm_pending_lem :
    (s : State) (vm other : Vm) (operation : Str)
    → let same = str_eq (vm_key vm) (vm_key other) in
      let marked = set_vm_pending s vm operation in
      let cleared = clear_vm_pending s vm in
      (is_vm_pending marked other ≡ (if same then (true, operation) else is_vm_pending s other))
      × (is_vm_pending cleared other ≡ (if same then (false, []) else is_vm_pending s other))
      × (can_vm_perform_actions marked other ≡ (not same && can_vm_perform_actions s other))
      × (can_vm_perform_actions cleared other ≡ (same || can_vm_perform_actions s other))
      × (get_vm_pending_operation marked other
          ≡ (if same then operation else get_vm_pending_operation s other))
unfolding set_vm_pending clear_vm_pending is_vm_pending can_vm_perform_actions
    get_vm_pending_operation
vm_pending_lem s vm other operation =
    rw
      (
        get-put (vm_key vm) (vm_key other) operation s.pending_vm_operations,
        get-delete (vm_key vm) (vm_key other) s.pending_vm_operations,
      )
      (elim (Bool-cases (str_eq (vm_key vm) (vm_key other))) [
        | inl y ↦ rw y (refl, refl, refl, refl, refl)
        | inr n ↦ rw n (refl, refl, refl, refl, refl)
      ])

-- The pending entries of the nodes follow the same laws, by the node's name.
node_pending_lem :
    (s : State) (node other : Node) (operation : Str)
    → let same = str_eq node.name other.name in
      (is_node_pending (set_node_pending s node operation) other
        ≡ (if same then (true, operation) else is_node_pending s other))
      × (is_node_pending (clear_node_pending s node) other
          ≡ (if same then (false, []) else is_node_pending s other))
unfolding set_node_pending clear_node_pending is_node_pending
node_pending_lem s node other operation =
    rw
      (
        get-put node.name other.name operation s.pending_node_operations,
        get-delete node.name other.name s.pending_node_operations,
      )
      (elim (Bool-cases (str_eq node.name other.name)) [
        | inl y ↦ rw y (refl, refl)
        | inr n ↦ rw n (refl, refl)
      ])

not_pending : (o : Option Str) → (pending_of o).0 ≡ false → o ≡ none
not_pending none h = refl
not_pending (some operation) h = cc

some_entry : (k v : Str) (m : Dict Str) → ltb 0 (length (put k v m)) ≡ true
unfolding put
some_entry k v [] = refl
some_entry k v ((j, w) ∷ m) = ground arith

-- While a guest is marked some operation is pending; marking a guest that was not pending and clearing
-- it again gives the state back.
clear_vm_pending-set_vm_pending :
    (s : State) (vm : Vm) (operation : Str)
    → (is_vm_pending s vm).0 ≡ false
    → (has_pending_operations (set_vm_pending s vm operation) ≡ true)
      × (clear_vm_pending (set_vm_pending s vm operation) vm ≡ s)
unfolding has_pending_operations set_vm_pending clear_vm_pending is_vm_pending
clear_vm_pending-set_vm_pending s vm operation h = (
  rw (some_entry (vm_key vm) operation s.pending_vm_operations) refl,
  ap (λ m. record s { pending_vm_operations = m })
      (delete-put (vm_key vm) operation s.pending_vm_operations (not_pending _ h)),
)
