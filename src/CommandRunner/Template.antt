-- ===== src/CommandRunner/Template.antt =====
-- internal/plugins/command-runner/config.go: the templates. A command is walked by bytes: the braces
-- are ASCII, so in UTF-8 text they stand where the rune loop meets them.
pub mod Filling
use pvetui.Base.{
  ℕ, List, [], ◌∷◌, ◌++◌, Option, none, some, Bool, true, false, Str, str, str_eq, Dict, get,
  if◌then◌else◌, ◌==◌, contains, replace_all,
}

pub record CommandTemplate : Type 0 where
  pub template : Str
  pub parameters : List Str

-- The rune loop: `open_param` is the text since the last `{`, where start != -1.
unfoldable pub scan_params : Option Str → Str → List Str
scan_params open_param [] = []
scan_params none (c ∷ s) = scan_params (if c == b'{' then some [] else none) s
scan_params (some p) (c ∷ s) =
    let reopened = scan_params (some []) s in
    let closed = p ∷ scan_params none s in
    let longer = scan_params (some (p ++ c ∷ [])) s in
    if c == b'{' then reopened else if c == b'}' then closed else longer

unfoldable pub parse_template : Str → CommandTemplate
unfolding scan_params
parse_template cmd = record { template = cmd; parameters = scan_params none cmd }

abbrev pub dangerous : List Str
dangerous =
    str ";"
    ∷ str "&"
    ∷ str "|"
    ∷ str "$"
    ∷ str "`"
    ∷ str "("
    ∷ str ")"
    ∷ str "<"
    ∷ str ">"
    ∷ (10 ∷ [])
    ∷ (13 ∷ [])
    ∷ []

unfoldable pub contains_any : Str → List Str → Bool
contains_any s [] = false
contains_any s (char ∷ rest) = if contains s char then true else contains_any s rest

unfoldable pub contains_shell_metachars : Str → Bool
unfolding contains_any
contains_shell_metachars s = contains_any s dangerous

pub data FillError : Type 0 where
  missing_parameter : Str → FillError
  invalid_characters : Str → FillError

pub data Filled : Type 0 where
  filled : Str → Filled
  refused : FillError → Filled

unfoldable pub fill_value : (Str → Filled) → Str → Str → Option Str → Filled
unfolding contains_shell_metachars
fill_value continue result param none = refused (missing_parameter param)
fill_value continue result param (some value) =
    if contains_shell_metachars value
    then refused (invalid_characters param)
    else continue (replace_all result (b'{' ∷ (param ++ b'}' ∷ [])) value)

unfoldable pub fill_params : Dict Str → List Str → Str → Filled
unfolding fill_value
fill_params values [] result = filled result
fill_params values (param ∷ rest) result =
    fill_value (fill_params values rest) result param (get param values)

unfoldable pub fill_template : CommandTemplate → Dict Str → Filled
unfolding fill_params
fill_template t values = fill_params values t.parameters t.template
