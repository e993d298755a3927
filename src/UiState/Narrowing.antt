-- ===== src/UiState/Narrowing.antt =====
-- How the shown lists change with the text, and when nothing is filtered.
use pvetui.Base.{
  Occurs, Occurs-trans, [], ◌∷◌, some, true, false, not, Str, str, str_eq, ◌≡◌, refl, ◌⊎◌, inl, inr,
  arith, Elem, to_lower, trim_space,
}
use pvetui.UiState.{
  State, Node, ClusterTask, SearchState, filter_nodes, filter_tasks, filter_vms, get_search_state,
  has_active_vm_filter, is_zero, normalized, normalized_options, no_criteria,
}
use pvetui.UiState.Matching.{Occurs-nil, to_lower-Occurs}
use pvetui.UiState.Filters.{NodeShows, TaskShows, shown_nodes, shown_tasks}

narrowed :
    {P Q : Type 0} (text longer : Str)
    → Occurs text longer
    → (P → Q)
    → (longer ≡ []) ⊎ P
    → (text ≡ []) ⊎ Q
narrowed text longer o f (inl e) = inl (Occurs-nil text (rw e at o))
narrowed text longer o f (inr p) = inr (f p)

node_narrowed : (t l : Str) (node : Node) → Occurs t l → NodeShows l node → NodeShows t node
node_narrowed t l node o (inl a) = inl (Occurs-trans t l _ o a)
node_narrowed t l node o (inr (inl a)) = inr (inl (Occurs-trans t l _ o a))
node_narrowed t l node o (inr (inr a)) = inr (inr (Occurs-trans t l _ o a))

task_narrowed : (t l : Str) (task : ClusterTask) → Occurs t l → TaskShows l task → TaskShows t task
task_narrowed t l task o (inl a) = inl (Occurs-trans t l _ o a)
task_narrowed t l task o (inr (inl a)) = inr (inl (Occurs-trans t l _ o a))
task_narrowed t l task o (inr (inr (inl a))) = inr (inr (inl (Occurs-trans t l _ o a)))
task_narrowed t l task o (inr (inr (inr (inl a)))) = inr (inr (inr (inl (Occurs-trans t l _ o a))))
task_narrowed t l task o (inr (inr (inr (inr (inl a))))) =
    inr (inr (inr (inr (inl (Occurs-trans t l _ o a)))))
task_narrowed t l task o (inr (inr (inr (inr (inr a))))) =
    inr (inr (inr (inr (inr (Occurs-trans t l _ o a)))))

-- A node that is shown under a text is shown under every part of that text: typing on narrows the list.
filter_nodes_narrow :
    (s : State) (text longer : Str) (node : Node)
    → Occurs text longer
    → Elem (some node) (filter_nodes s longer).filtered_nodes
    → Elem (some node) (filter_nodes s text).filtered_nodes
filter_nodes_narrow s text longer node o e =
    let r = (shown_nodes s longer node).0 e in
    (shown_nodes s text node).1
      (r.0, narrowed text longer o (node_narrowed _ _ node (to_lower-Occurs text longer o)) r.1)

-- A task that is shown under a text is shown under every part of that text: typing on narrows the list.
filter_tasks_narrow :
    (s : State) (text longer : Str) (task : ClusterTask)
    → Occurs text longer
    → Elem (some task) (filter_tasks s longer).filtered_tasks
    → Elem (some task) (filter_tasks s text).filtered_tasks
filter_tasks_narrow s text longer task o e =
    let r = (shown_tasks s longer task).0 e in
    (shown_tasks s text task).1
      (r.0, narrowed text longer o (task_narrowed _ _ task (to_lower-Occurs text longer o)) r.1)

lower_empty : (s : Str) → str_eq (to_lower s) [] ≡ str_eq s []
unfolding to_lower str_eq
lower_empty [] = refl
lower_empty (c ∷ s) = refl

active_criteria :
    (search : SearchState)
    → has_active_vm_filter (some search)
      ≡ not (no_criteria (normalized search.filter) (normalized_options search.vm_filters))
unfolding has_active_vm_filter is_zero normalized_options normalized
active_criteria search =
    let f = search.vm_filters in
    ground (
      arith,
      lower_empty (trim_space search.filter),
      lower_empty (trim_space f.status),
      lower_empty (trim_space f.kind),
      lower_empty (trim_space f.node),
      lower_empty (trim_space f.tag_contains),
    )

-- Where the guests' page has no active filter by HasActiveVMFilter, filtering by its own text shows the
-- whole list.
filter_vms_inactive :
    (s : State) (search : SearchState)
    → get_search_state s (str "Guests") ≡ some search
    → has_active_vm_filter (some search) ≡ false
    → (filter_vms s search.filter).filtered_vms ≡ s.original_vms
unfolding filter_vms
filter_vms_inactive s search e h = rw (e, blank) refl
  where
    blank : no_criteria (normalized search.filter) (normalized_options search.vm_filters) ≡ true
    blank = ground (arith, active_criteria search)
