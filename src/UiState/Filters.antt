-- ===== src/UiState/Filters.antt =====
-- What the filters show.
use pvetui.Base.{
  Occurs, contains_iff, List, [], Option, some, Bool, true, false, ◌&&◌, ◌||◌, Str, str, str_eq,
  str_eq_iff, if◌then◌else◌, ◌≡◌, refl, ◌↔◌, ◌⊎◌, inl, inr, arith, Elem, to_lower, equal_fold, itoa,
}
use pvetui.UiState.{
  State, Node, Vm, ClusterTask, VmFilterOptions, keep, status_text, node_matches, task_matches,
  vm_matches, vm_text_matches, filter_nodes, filter_tasks, filter_vms, get_search_state, normalized,
  normalized_options, vm_filters_of, no_criteria,
}
use pvetui.UiState.Matching.{Sublist, same-Sublist, keep-Sublist, keep-Elem}

-- Some field of the node has the text in it, whatever the case.
abbrev pub NodeShows : Str → Node → Type 0
NodeShows text node =
    Occurs text (to_lower node.name)
    ⊎ (Occurs text (to_lower node.ip) ⊎ Occurs text (status_text node.online))

abbrev pub TaskShows : Str → ClusterTask → Type 0
TaskShows text task =
    Occurs text (to_lower task.id)
    ⊎ (Occurs text (to_lower task.node)
        ⊎ (Occurs text (to_lower task.kind)
            ⊎ (Occurs text (to_lower task.status)
                ⊎ (Occurs text (to_lower task.user) ⊎ Occurs text (to_lower task.upid)))))

abbrev pub VmTextShows : Str → Vm → Type 0
VmTextShows text vm =
    Occurs text (to_lower vm.name)
    ⊎ (Occurs text (itoa vm.id)
        ⊎ (Occurs text (to_lower vm.kind)
            ⊎ (Occurs text (to_lower vm.status)
                ⊎ (Occurs text (to_lower vm.node)
                    ⊎ (Occurs text (to_lower vm.ip) ⊎ Occurs text (to_lower vm.tags))))))

-- A criterion that is given equals the field, whatever the case.
abbrev pub Agrees : Str → Str → Type 0
Agrees criterion field = (criterion ≡ []) ⊎ (to_lower field ≡ to_lower criterion)

abbrev pub VmShows : Str → VmFilterOptions → Vm → Type 0
VmShows text f vm =
    Agrees f.status vm.status
    × (Agrees f.kind vm.kind
        × (Agrees f.node vm.node
            × (((f.tag_contains ≡ []) ⊎ Occurs f.tag_contains (to_lower vm.tags))
                × ((text ≡ []) ⊎ VmTextShows text vm))))

or_iff : {P Q : Type 0} (a b : Bool) → (a ≡ true) ↔ P → (b ≡ true) ↔ Q → ((a || b) ≡ true) ↔ (P ⊎ Q)
or_iff true b h k = (λ x. inl (h.0 refl), λ x. refl)
or_iff false b h k = (λ x. inr (k.0 x), λ x. elim x [ inl p ↦ let q = h.1 p in cc | inr q ↦ k.1 q ])

and_iff :
    {P Q : Type 0} (a b : Bool) → (a ≡ true) ↔ P → (b ≡ true) ↔ Q → ((a && b) ≡ true) ↔ (P × Q)
and_iff true b h k = (λ x. (h.0 refl, k.0 x), λ x. k.1 x.1)
and_iff false b h k = (λ x. cc, λ x. let q = h.1 x.0 in q)

node_matches_iff :
    (text : Str) (node : Node) → (node_matches text node ≡ true) ↔ NodeShows text node
unfolding node_matches
node_matches_iff text node =
    or_iff _ _ (contains_iff _ _) (or_iff _ _ (contains_iff _ _) (contains_iff _ _))

task_matches_iff :
    (text : Str) (task : ClusterTask) → (task_matches text task ≡ true) ↔ TaskShows text task
unfolding task_matches
task_matches_iff text task = or_iff _ _ (contains_iff _ _) (
    or_iff _ _ (contains_iff _ _) (
      or_iff _ _ (contains_iff _ _)
        (or_iff _ _ (contains_iff _ _) (or_iff _ _ (contains_iff _ _) (contains_iff _ _)))))

vm_text_iff : (text : Str) (vm : Vm) → (vm_text_matches text vm ≡ true) ↔ VmTextShows text vm
unfolding vm_text_matches
vm_text_iff text vm = or_iff _ _ (contains_iff _ _) (
    or_iff _ _ (contains_iff _ _) (
      or_iff _ _ (contains_iff _ _) (
        or_iff _ _ (contains_iff _ _)
          (or_iff _ _ (contains_iff _ _) (or_iff _ _ (contains_iff _ _) (contains_iff _ _))))))

criterion_iff :
    (criterion field : Str)
    → ((str_eq criterion [] || equal_fold field criterion) ≡ true) ↔ Agrees criterion field
unfolding equal_fold
criterion_iff criterion field = or_iff _ _ (str_eq_iff criterion []) (str_eq_iff _ _)

vm_matches_iff :
    (text : Str) (f : VmFilterOptions) (vm : Vm) → (vm_matches text f vm ≡ true) ↔ VmShows text f vm
unfolding vm_matches
vm_matches_iff text f vm = and_iff _ _ (criterion_iff f.status vm.status) (
    and_iff _ _ (criterion_iff f.kind vm.kind) (
      and_iff _ _ (criterion_iff f.node vm.node) (
        and_iff _ _
          (or_iff _ _ (str_eq_iff f.tag_contains [])
            (contains_iff (to_lower vm.tags) f.tag_contains))
          (or_iff _ _ (str_eq_iff text []) (vm_text_iff text vm)))))

module _ {A : Type 0} (p : A → Bool) (a : A) (xs : List (Option A)) where
  shown_iff :
      {Q : Type 0} (c : Bool)
      → (c ≡ true → Q)
      → (c ≡ false → (p a ≡ true) ↔ Q)
      → Elem (some a) (if c then xs else keep p xs) ↔ (Elem (some a) xs × Q)
  shown_iff true whole part = (λ e. (e, whole refl), λ x. x.0)
  shown_iff false whole part = (
    λ e. let r = (keep-Elem p a xs).0 e in (r.0, (part refl).0 r.1),
    λ x. (keep-Elem p a xs).1 (x.0, (part refl).1 x.1),
  )

  shown_under :
      {P : Type 0} (text : Str)
      → (p a ≡ true) ↔ P
      → Elem (some a) (if str_eq text [] then xs else keep p xs)
        ↔ (Elem (some a) xs × ((text ≡ []) ⊎ P))
  shown_under text h =
      shown_iff (str_eq text []) (λ y. inl ((str_eq_iff text []).0 y))
        λ n. (λ e. inr (h.0 e), λ x. elim x [ inl b ↦ absurd (filled n b) | inr q ↦ h.1 q ])
    where
      filled : str_eq text [] ≡ false → text ≡ [] → ⊥
      filled n b = ground (arith, str_eq_iff text [])

blank_shows :
    (text : Str) (f : VmFilterOptions) (vm : Vm) → no_criteria text f ≡ true → VmShows text f vm
blank_shows text f vm y = ground (
  arith,
  str_eq_iff text [],
  str_eq_iff f.status [],
  str_eq_iff f.kind [],
  str_eq_iff f.node [],
  str_eq_iff f.tag_contains [],
)

pub shown_nodes :
    (s : State) (text : Str) (node : Node)
    → Elem (some node) (filter_nodes s text).filtered_nodes
      ↔ (Elem (some node) s.original_nodes × ((text ≡ []) ⊎ NodeShows (to_lower text) node))
unfolding filter_nodes
shown_nodes s text node =
    shown_under (node_matches (to_lower text)) node s.original_nodes text (node_matches_iff _ node)

pub shown_tasks :
    (s : State) (text : Str) (task : ClusterTask)
    → Elem (some task) (filter_tasks s text).filtered_tasks
      ↔ (Elem (some task) s.original_tasks × ((text ≡ []) ⊎ TaskShows (to_lower text) task))
unfolding filter_tasks
shown_tasks s text task =
    shown_under (task_matches (to_lower text)) task s.original_tasks text (task_matches_iff _ task)

-- A node is shown under a text exactly where it is in the list and the text is empty or occurs in one of
-- its fields, whatever the case; so is a task; so is a guest under the text and the advanced criteria
-- of the guests' page, of which those that are blank restrict nothing.
pub filter_lists_iff :
    (s : State) (text : Str) (node : Node) (task : ClusterTask) (vm : Vm)
    → (Elem (some node) (filter_nodes s text).filtered_nodes
        ↔ (Elem (some node) s.original_nodes × ((text ≡ []) ⊎ NodeShows (to_lower text) node)))
      × (Elem (some task) (filter_tasks s text).filtered_tasks
          ↔ (Elem (some task) s.original_tasks × ((text ≡ []) ⊎ TaskShows (to_lower text) task)))
      × (Elem (some vm) (filter_vms s text).filtered_vms ↔ (
          Elem (some vm) s.original_vms
          × VmShows
              (normalized text)
              (normalized_options (vm_filters_of (get_search_state s (str "Guests"))))
              vm))
unfolding filter_vms
filter_lists_iff s text node task vm = (
  shown_nodes s text node,
  shown_tasks s text task,
  shown_iff (vm_matches t f) vm s.original_vms (no_criteria t f) (blank_shows t f vm)
      (λ n. vm_matches_iff t f vm),
)
  where
    t : Str
    t = normalized text

    f : VmFilterOptions
    f = normalized_options (vm_filters_of (get_search_state s (str "Guests")))

whole_or_kept :
    {A : Type 0} (p : A → Bool) (xs : List (Option A)) (c : Bool)
    → Sublist (if c then xs else keep p xs) xs
whole_or_kept p xs true = same-Sublist xs
whole_or_kept p xs false = keep-Sublist p xs

-- Whatever the text, each filter shows entries of its list only, in the order of the list, and no
-- entry more often than it stands there.
filter_lists-Sublist :
    (s : State) (text : Str)
    → Sublist (filter_nodes s text).filtered_nodes s.original_nodes
      × Sublist (filter_vms s text).filtered_vms s.original_vms
      × Sublist (filter_tasks s text).filtered_tasks s.original_tasks
unfolding filter_nodes filter_vms filter_tasks
filter_lists-Sublist s text = (
  whole_or_kept _ s.original_nodes (str_eq text []),
  whole_or_kept _ s.original_vms (no_criteria (normalized text) _),
  whole_or_kept _ s.original_tasks (str_eq text []),
)
