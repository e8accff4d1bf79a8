-- ===== src/Tools/Policy.antt =====
-- server/src/tools/policy.ts: `isWithin`, and the closures `check` and `capOutput` of `createPolicy`.
-- A denial's reason is a constructor, in place of the message that shows it to the model.
pub mod Cap
pub mod Check
use text.Mathlib.Text.{starts_with}
use run_forge.Base.{
  ℕ, ◌-◌, String, str_eq, Bool, true, false, not, ◌&&◌, ◌||◌, Option, none, some, List, [], ◌∷◌,
  ◌++◌, leb, ◌==◌, if◌then◌else◌, truthy, length, take, drop, filter, Text, codes, decimal,
}

pub data Sandbox : Type 0 where
  off enforce : Sandbox

pub data Network : Type 0 where
  enabled disabled : Network

pub record ToolPolicyConfig : Type 0 where
  pub sandbox : Sandbox
  pub workspace_root : String
  pub shell_enabled : Bool
  pub shell_deny : List String
  pub network : Network
  pub max_output : ℕ

pub data Reason : Type 0 where
  outside_workspace : String → Reason
  shell_disabled : Reason
  command_denied : String → Reason
  network_disabled : Reason

pub data PolicyDecision : Type 0 where
  allow : PolicyDecision
  deny : Reason → PolicyDecision

pub data ToolKind : Type 0 where
  fs_read fs_write exec net safe : ToolKind

pub record ToolMeta : Type 0 where
  pub kind : ToolKind
  pub path_args : Option (List String)

-- An argument's value: missing or null, a string, or another value with what `String` makes of it.
pub data ArgValue : Type 0 where
  null : ArgValue
  str : String → ArgValue
  other : String → ArgValue

abbrev pub Args : Type 0
Args = String → ArgValue

-- node:path, and the `test` of a case-insensitive RegExp that is compiled from a pattern.
pub record Host : Type 0 where
  pub resolve : String → String
  pub resolve_from : String → String → String
  pub relative : String → String → String
  pub is_absolute : String → Bool
  pub matches : String → String → Bool

abbrev reads_path : ToolMeta
reads_path = record { kind = fs_read; path_args = some ("path" ∷ []) }

abbrev writes_path : ToolMeta
writes_path = record { kind = fs_write; path_args = some ("path" ∷ []) }

abbrev executes : ToolMeta
executes = record { kind = exec; path_args = none }

abbrev connects : ToolMeta
connects = record { kind = net; path_args = none }

abbrev is_safe : ToolMeta
is_safe = record { kind = safe; path_args = none }

-- The table `META`.
abbrev meta_table : List (String × ToolMeta)
meta_table =
    ("file_read", reads_path)
    ∷ ("file_write", writes_path)
    ∷ ("file_edit", writes_path)
    ∷ ("glob", reads_path)
    ∷ ("grep", reads_path)
    ∷ ("shell", executes)
    ∷ ("shell_session_open", executes)
    ∷ ("shell_session_reuse", is_safe)
    ∷ ("shell_session_list", is_safe)
    ∷ ("shell_exec", executes)
    ∷ ("shell_poll", is_safe)
    ∷ ("shell_kill", is_safe)
    ∷ ("shell_session_close", is_safe)
    ∷ ("web_fetch", connects)
    ∷ ("web_search", connects)
    ∷ ("ask_user", is_safe)
    ∷ ("update_plan", is_safe)
    ∷ ("skill_activate", is_safe)
    ∷ ("mcp_activate", is_safe)
    ∷ ("subagent_run", is_safe)
    ∷ ("subagent_poll", is_safe)
    ∷ ("subagent_list", is_safe)
    ∷ []

-- `table[name] ?? { kind: 'safe' }`
lookup_meta : String → List (String × ToolMeta) → ToolMeta
lookup_meta name [] = is_safe
lookup_meta name ((key, meta) ∷ rest) = if str_eq key name then meta else lookup_meta name rest

unfoldable pub meta_of : String → ToolMeta
unfolding lookup_meta
meta_of name = lookup_meta name meta_table

-- A check that denies returns from `check`; one that does not goes on.
abbrev pub and_then : PolicyDecision → PolicyDecision → PolicyDecision
and_then allow next = next
and_then (deny reason) next = deny reason

abbrev paths_of : Option (List String) → List String
paths_of none = []
paths_of (some keys) = keys

-- `String(args.command ?? '')`
abbrev pub command_of : ArgValue → String
command_of null = ""
command_of (str s) = s
command_of (other s) = s

abbrev by_network : Network → PolicyDecision
by_network enabled = allow
by_network disabled = deny network_disabled

module _ (host : Host) where
  open host use {resolve, resolve_from, relative, is_absolute, matches}

  unfoldable pub is_within : String → String → Bool
  is_within root target =
      let rel = relative (resolve root) (resolve target) in
      str_eq rel "" || not (starts_with rel "..") && not (is_absolute rel)

  unfoldable pub resolve_from_workspace : String → String → String
  resolve_from_workspace root target =
      if is_absolute target then resolve target else resolve_from root target

  -- `mount && isWithin(mount, target)`
  abbrev in_mount : Option String → String → Bool
  in_mount none target = false
  in_mount (some mount) target = not (str_eq mount "") && is_within mount target

  module _ (cfg : ToolPolicyConfig) (user_files_mount_path : Option String) where
    -- `raw == null || raw === ''` skips the argument; `String(raw)` is confined otherwise.
    unfoldable pub check_path : ArgValue → PolicyDecision
    unfolding is_within resolve_from_workspace
    check_path null = allow
    check_path (str raw) =
        let target = resolve_from_workspace cfg.workspace_root raw in
        if str_eq raw ""
        then allow
        else if not (is_within cfg.workspace_root target)
            && not (in_mount user_files_mount_path target)
        then deny (outside_workspace raw)
        else allow
    check_path (other raw) =
        let target = resolve_from_workspace cfg.workspace_root raw in
        if not (is_within cfg.workspace_root target) && not (in_mount user_files_mount_path target)
        then deny (outside_workspace raw)
        else allow

    unfoldable pub check_paths : List String → Args → PolicyDecision
    unfolding check_path
    check_paths [] args = allow
    check_paths (key ∷ keys) args = and_then (check_path (args key)) (check_paths keys args)

    unfoldable pub check_files : ToolMeta → Args → PolicyDecision
    unfolding check_paths
    check_files meta args = elim meta.kind [
      | fs_read ↦ check_paths (paths_of meta.path_args) args
      | fs_write ↦ check_paths (paths_of meta.path_args) args
      | _ ↦ allow
    ]

    unfoldable pub check_deny_list : List String → String → PolicyDecision
    check_deny_list [] command = allow
    check_deny_list (re ∷ res) command =
        if matches re command then deny (command_denied re) else check_deny_list res command

    unfoldable pub check_shell : ToolMeta → Args → PolicyDecision
    unfolding check_deny_list
    check_shell meta args = elim meta.kind [
      | exec ↦
          if not cfg.shell_enabled
          then deny shell_disabled
          else check_deny_list cfg.shell_deny (command_of (args "command"))
      | _ ↦ allow
    ]

    unfoldable pub check_network : ToolMeta → PolicyDecision
    check_network meta = elim meta.kind [ net ↦ by_network cfg.network | _ ↦ allow ]

    unfoldable pub check : String → Args → PolicyDecision
    unfolding check_files check_shell check_network
    check name args = elim cfg.sandbox [
      | off ↦ allow
      | enforce ↦
          and_then (check_files (meta_of name) args)
            (and_then (check_shell (meta_of name) args) (check_network (meta_of name)))
    ]

-- `output.replace(/\u0000/g, '')`
unfoldable pub strip_nul : Text → Text
strip_nul output = filter (λ c. not (c == 0)) output

unfoldable pub marker_of : ℕ → Text
marker_of dropped = codes "\n…[工具策略已截断 " ++ (decimal dropped ++ codes " 个字符]…\n")

-- `share n` is `Math.floor(n * 0.7)`, in floating point.
module _ (share : ℕ → ℕ) where
  unfoldable pub truncate : ℕ → Text → Text
  truncate max_output output =
      let marker = marker_of (length output - max_output) in
      let content_budget = max_output - length marker in
      let head = share content_budget in
      let tail = content_budget - head in
      if leb max_output (length marker)
      then take max_output marker
      else take head output ++ (marker ++ drop (length output - tail) output)

  unfoldable pub cap_output : ToolPolicyConfig → Text → Text
  cap_output cfg raw =
      let output = strip_nul raw in
      if leb (length output) cfg.max_output then output else truncate cfg.max_output output
