-- ===== src/Ansible/Rendering.antt =====
-- The texts of an inventory. yaml.Marshal is the argument `marshal`: it answers with the document of the
-- variables of all hosts and of the groups with the variables of their hosts, or with an error.
use pvetui.Base.{
  ℕ, List, [], ◌∷◌, ◌++◌, Option, Bool, false, ◌&&◌, ◌||◌, Str, str, str_eq, str_lt, ◌==◌,
  if◌then◌else◌, Dict, get, put, keys, sort_strings, map, ◌⊎◌, inl, inr,
}
use pvetui.Ansible.{InventoryDefaults, InventoryHost, Node, Vm}
use pvetui.Ansible.Inventory.{
  inventory_hosts, hosts_of, group_hosts, filter_host_vars, normalize_inventory_format,
  normalize_inventory_style, shared_for, text_of,
}

-- The two pairs of the replacer: two backslashes become four, and a double quote becomes two
-- backslashes and a double quote.
abbrev replaced_byte : ℕ → Str
replaced_byte c = if c == 34 then 92 ∷ 92 ∷ 34 ∷ [] else c ∷ []

unfoldable pub escaped : Str → Str
escaped [] = []
escaped (c ∷ []) = replaced_byte c
escaped (c ∷ d ∷ s) =
    let pair = 92 ∷ 92 ∷ 92 ∷ 92 ∷ escaped s in
    let single = replaced_byte c ++ escaped (d ∷ s) in if c == 92 && d == 92 then pair else single

-- strings.ContainsAny(value, " \t;\"'")
unfoldable pub needs_quotes : Str → Bool
needs_quotes [] = false
needs_quotes (c ∷ s) = (c == 32 || (c == 9 || (c == 59 || (c == 34 || c == 39)))) || needs_quotes s

unfoldable pub quote_if_needed : Str → Str
unfolding escaped needs_quotes
quote_if_needed value =
    if str_eq value []
    then 34 ∷ 34 ∷ []
    else if needs_quotes value
    then 34 ∷ (escaped value ++ 34 ∷ [])
    else escaped value

-- strings.Join(parts, " ")
unfoldable pub join_spaces : List Str → Str
join_spaces [] = []
join_spaces (p ∷ []) = p
join_spaces (p ∷ q ∷ parts) = p ++ (32 ∷ join_spaces (q ∷ parts))

abbrev pub assignment : Dict Str → Str → Str
assignment vars key = key ++ (b'=' ∷ quote_if_needed (text_of (get key vars)))

unfoldable pub render_host_vars : Dict Str → Dict Str → Str
unfolding filter_host_vars sort_strings join_spaces quote_if_needed get
render_host_vars vars shared =
    let filtered = filter_host_vars vars shared in
    join_spaces (map (assignment filtered) (sort_strings (keys filtered)))

-- sort.Slice by alias; aliases differ, so the order is decided.
abbrev insert_host : InventoryHost → List InventoryHost → List InventoryHost
insert_host host [] = host ∷ []
insert_host host (h ∷ hosts) =
    let rest = insert_host host hosts in
    if str_lt h.alias host.alias then h ∷ rest else host ∷ h ∷ hosts

unfoldable pub sort_hosts : List InventoryHost → List InventoryHost
unfolding str_lt
sort_hosts [] = []
sort_hosts (host ∷ hosts) = insert_host host (sort_hosts hosts)

abbrev newline : Str
newline = 10 ∷ []

unfoldable pub render_hosts : List InventoryHost → Dict Str → Str
unfolding render_host_vars
render_hosts [] shared = []
render_hosts (host ∷ hosts) shared =
    host.alias ++ (32 ∷ (render_host_vars host.vars shared ++ (10 ∷ render_hosts hosts shared)))

unfoldable pub render_groups : List Str → Dict (List InventoryHost) → Dict Str → Str
unfolding render_hosts sort_hosts get
render_groups [] groups shared = []
render_groups (g ∷ gs) groups shared =
    b'['
    ∷ (g
        ++ (b']'
            ∷ 10
            ∷ (render_hosts (sort_hosts (hosts_of (get g groups))) shared
                ++ (10 ∷ render_groups gs groups shared))))

unfoldable pub render_shared : List Str → Dict Str → Str
unfolding quote_if_needed get
render_shared [] shared = []
render_shared (k ∷ ks) shared = assignment shared k ++ (10 ∷ render_shared ks shared)

unfoldable pub render_ini_inventory : Dict (List InventoryHost) → List InventoryHost → Str → Str
unfolding shared_for render_groups render_shared sort_strings
render_ini_inventory groups all_hosts style =
    let shared = shared_for all_hosts style in
    (str "# Generated by pvetui Ansible plugin" ++ newline)
    ++ ((str "[all:vars]" ++ newline)
        ++ ((str "pvetui_generated=true" ++ newline)
            ++ (render_shared (sort_strings (keys shared)) shared
                ++ (10 ∷ render_groups (sort_strings (keys groups)) groups shared))))

-- hosts[host.Alias] = vars, for the hosts of one group.
unfoldable pub group_document : List InventoryHost → Dict Str → Dict (Dict Str) → Dict (Dict Str)
unfolding filter_host_vars put
group_document [] shared doc = doc
group_document (host ∷ hosts) shared doc =
    group_document hosts shared (put host.alias (filter_host_vars host.vars shared) doc)

unfoldable pub children_document :
    List Str → Dict (List InventoryHost) → Dict Str → Dict (Dict (Dict Str))
unfolding group_document sort_hosts get
children_document [] groups shared = []
children_document (g ∷ gs) groups shared =
    (g, group_document (sort_hosts (hosts_of (get g groups))) shared [])
    ∷ children_document gs groups shared

abbrev pub yaml_text : Str ⊎ Str → Str
yaml_text (inl e) = str "# Failed to render YAML inventory: " ++ (e ++ newline)
yaml_text (inr text) = str "# Generated by pvetui Ansible plugin" ++ (10 ∷ text)

pub record InventoryResult : Type 0 where
  pub format : Str
  pub text : Str
  pub hosts : List InventoryHost

module _ (marshal : Dict Str → Dict (Dict (Dict Str)) → Str ⊎ Str) where
  -- The variable pvetui_generated, which is always true there, is left to `marshal`.
  unfoldable pub render_yaml_inventory : Dict (List InventoryHost) → List InventoryHost → Str → Str
  unfolding shared_for children_document sort_strings
  render_yaml_inventory groups all_hosts style =
      let shared = shared_for all_hosts style in
      yaml_text (marshal shared (children_document (sort_strings (keys groups)) groups shared))

  unfoldable pub build_inventory_with_format :
      List (Option Node) → List (Option Vm) → InventoryDefaults → Str → InventoryResult
  unfolding inventory_hosts group_hosts render_yaml_inventory render_ini_inventory
      normalize_inventory_format normalize_inventory_style
  build_inventory_with_format nodes guests defaults format =
      let format' = normalize_inventory_format format in
      let style = normalize_inventory_style defaults.style in
      let hosts = inventory_hosts nodes guests defaults in
      let groups = group_hosts hosts [] in
      record {
        format = format';
        text =
            if str_eq format' (str "yaml")
            then render_yaml_inventory groups hosts style
            else render_ini_inventory groups hosts style;
        hosts = hosts;
      }

  unfoldable pub build_inventory :
      List (Option Node) → List (Option Vm) → InventoryDefaults → InventoryResult
  unfolding build_inventory_with_format
  build_inventory nodes guests defaults =
      build_inventory_with_format nodes guests defaults (str "ini")
