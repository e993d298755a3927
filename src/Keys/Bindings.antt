-- ===== src/Keys/Bindings.antt =====
-- DefaultKeyBindings, keyBindingsToMap and ValidateKeyBindings of internal/config/config.go. The order of
-- the list of bindings stands for that of the map.
use pvetui.Base.{
  [], ◌∷◌, Option, none, some, Bool, not, ◌&&◌, Str, str, str_eq, if◌then◌else◌, Dict, get, put,
  ◌⊎◌, inl, inr,
}
use pvetui.Keys.{Tcell, Combination, is_reserved, canonical_id}
use pvetui.Keys.Parsing.{ParseError, parse}

pub record KeyBindings : Type 0 where
  pub switch_view : Str
  pub switch_view_reverse : Str
  pub nodes_page : Str
  pub guests_page : Str
  pub tasks_page : Str
  pub storage_page : Str
  pub tasks_toggle_queue : Str
  pub task_stop_cancel : Str
  pub menu : Str
  pub global_menu : Str
  pub shell : Str
  pub vnc : Str
  pub refresh : Str
  pub auto_refresh : Str
  pub search_key : Str
  pub advanced_guest_filter : Str
  pub help : Str
  pub quit : Str

abbrev pub default_key_bindings : KeyBindings
default_key_bindings = record {
  switch_view = str "]";
  switch_view_reverse = str "[";
  nodes_page = str "Alt+1";
  guests_page = str "Alt+2";
  tasks_page = str "Alt+3";
  storage_page = str "Alt+4";
  tasks_toggle_queue = str "t";
  task_stop_cancel = str "x";
  menu = str "m";
  global_menu = str "Ctrl+g";
  shell = str "s";
  vnc = str "v";
  refresh = str "Ctrl+r";
  auto_refresh = str "a";
  search_key = str "/";
  advanced_guest_filter = str "Ctrl+f";
  help = str "?";
  quit = str "q";
}

unfoldable pub key_bindings_to_map : KeyBindings → Dict Str
key_bindings_to_map kb =
    (str "switch_view", kb.switch_view)
    ∷ (str "switch_view_reverse", kb.switch_view_reverse)
    ∷ (str "nodes_page", kb.nodes_page)
    ∷ (str "guests_page", kb.guests_page)
    ∷ (str "tasks_page", kb.tasks_page)
    ∷ (str "storage_page", kb.storage_page)
    ∷ (str "tasks_toggle_queue", kb.tasks_toggle_queue)
    ∷ (str "task_stop_cancel", kb.task_stop_cancel)
    ∷ (str "menu", kb.menu)
    ∷ (str "global_menu", kb.global_menu)
    ∷ (str "shell", kb.shell)
    ∷ (str "vnc", kb.vnc)
    ∷ (str "refresh", kb.refresh)
    ∷ (str "auto_refresh", kb.auto_refresh)
    ∷ (str "search", kb.search_key)
    ∷ (str "advanced_guest_filter", kb.advanced_guest_filter)
    ∷ (str "help", kb.help)
    ∷ (str "quit", kb.quit)
    ∷ []

pub data BindingError : Type 0 where
  invalid_binding : Str → ParseError → BindingError
  uses_reserved : Str → Str → BindingError
  duplicates : Str → Str → BindingError

-- Whether a binding has the specification of the default one; a name that is missing has none.
abbrev pub same_spec : Str → Option Str → Bool
same_spec spec none = str_eq spec []
same_spec spec (some d) = str_eq spec d

-- The test for a duplicate, with the map after it.
unfoldable pub not_seen : Str → Str → Dict Str → Option Str → BindingError ⊎ Dict Str
unfolding put
not_seen name id seen none = inr (put id name seen)
not_seen name id seen (some other) = inl (duplicates name other)

-- The body of the loop after Parse: an error, or the map `seen` after it.
unfoldable pub check_parsed :
    Tcell → Dict Str → Dict Str → Str → Str → ParseError ⊎ Combination → BindingError ⊎ Dict Str
unfolding is_reserved canonical_id get not_seen
check_parsed t default_map seen name spec (inl e) = inl (invalid_binding name e)
check_parsed t default_map seen name spec (inr c) =
    if is_reserved t c && not (same_spec spec (get name default_map))
    then inl (uses_reserved name spec)
    else not_seen name (canonical_id t c) seen (get (canonical_id t c) seen)

unfoldable pub check_binding : Tcell → Dict Str → Dict Str → Str → Str → BindingError ⊎ Dict Str
unfolding check_parsed parse
check_binding t default_map seen name spec =
    if str_eq spec [] then inr seen else check_parsed t default_map seen name spec (parse t spec)

abbrev pub go_on : BindingError ⊎ Dict Str → (Dict Str → Option BindingError) → Option BindingError
go_on (inl e) rest = some e
go_on (inr seen) rest = rest seen

unfoldable pub check_bindings : Tcell → Dict Str → Dict Str → Dict Str → Option BindingError
unfolding check_binding
check_bindings t default_map [] seen = none
check_bindings t default_map ((name, spec) ∷ bindings) seen =
    go_on (check_binding t default_map seen name spec) (check_bindings t default_map bindings)

unfoldable pub validate_key_bindings : Tcell → KeyBindings → Option BindingError
unfolding check_bindings key_bindings_to_map
validate_key_bindings t kb =
    check_bindings t (key_bindings_to_map default_key_bindings) (key_bindings_to_map kb) []
