-- ===== src/Tools/Policy/Check.antt =====
-- Which calls the policy lets through.
use run_forge.Base.{
  String, str_eq, eq_iff, ◌≡◌, refl, ◌≢◌, ◌↔◌, ◌⊎◌, inl, inr, Bool, true, false, not, ◌&&◌, Option,
  none, some, List, [], ◌∷◌, arith, if◌then◌else◌, Bool-cases, All,
}
use text.Mathlib.Text.{starts_with}
use run_forge.Tools.Policy.{
  off, enforce, enabled, ToolPolicyConfig, outside_workspace, PolicyDecision, allow, deny, ToolKind,
  fs_read, fs_write, exec, net, safe, ToolMeta, ArgValue, null, str, other, Args, Host, meta_of,
  is_within, resolve_from_workspace, in_mount, check_path, and_then, check_paths, paths_of,
  check_files, command_of, check_deny_list, check_shell, check_network, check,
}

and_then_iff : (d e : PolicyDecision) → (and_then d e ≡ allow) ↔ ((d ≡ allow) × (e ≡ allow))
and_then_iff d e = (λ h. (ground arith, ground arith), λ h. ground arith)

module _ (host : Host) (cfg : ToolPolicyConfig) (mount : Option String) where
  -- The path from one place to another, both resolved, is empty, or it neither begins with `..` nor
  -- is absolute.
  abbrev pub IsUnder : String → String → Type 0
  IsUnder root target =
      let path = host.relative (host.resolve root) (host.resolve target) in
      (path ≡ "") ⊎ ((starts_with path ".." ≡ false) × (host.is_absolute path ≡ false))

  -- The path that an argument names lies under the workspace or under the mounted user files.
  abbrev pub IsConfined : String → Type 0
  IsConfined raw =
      let target = resolve_from_workspace host cfg.workspace_root raw in
      IsUnder cfg.workspace_root target
      ⊎ ((m : String) × (mount ≡ some m) × (m ≢ "") × IsUnder m target)

  is_within_iff : (root target : String) → (is_within host root target ≡ true) ↔ IsUnder root target
  unfolding is_within
  is_within_iff root target =
      let path = host.relative (host.resolve root) (host.resolve target) in
      elim (Bool-cases (str_eq path "")) [
        | inl same ↦ ((λ h. inl ((eq_iff path "").0 same)), λ h. ground arith)
        | inr below ↦ (
          (λ h. inr (ground arith, ground arith)),
          λ h. elim h [
            | inl same ↦ absurd (cc ((eq_iff path "").1 same))
            | inr (down, local) ↦ ground arith
          ],
        )
      ]

  -- An argument that is missing, null or the empty string is not a path.
  abbrev pub IsConfinedArg : ArgValue → Type 0
  IsConfinedArg null = Unit
  IsConfinedArg (str raw) = (raw ≡ "") ⊎ IsConfined raw
  IsConfinedArg (other raw) = IsConfined raw

  -- What an enforcing policy demands of a call, by the kind of its tool.
  abbrev pub IsPermittedKind : ToolKind → ToolMeta → Args → Type 0
  IsPermittedKind fs_read meta args =
      All (λ key. IsConfinedArg (args key)) (paths_of meta.path_args)
  IsPermittedKind fs_write meta args =
      All (λ key. IsConfinedArg (args key)) (paths_of meta.path_args)
  IsPermittedKind exec meta args =
      (cfg.shell_enabled ≡ true)
      × All (λ re. host.matches re (command_of (args "command")) ≡ false) cfg.shell_deny
  IsPermittedKind net meta args = cfg.network ≡ enabled
  IsPermittedKind safe meta args = Unit

  in_mount_iff :
      (m : Option String) (target : String)
      → (in_mount host m target ≡ true)
        ↔ ((s : String) × (m ≡ some s) × (s ≢ "") × IsUnder s target)
  in_mount_iff none target = ((λ h. cc), λ p. cc (p.1))
  in_mount_iff (some s) target = (
    (λ h. (s, refl, ground (arith, eq_iff s ""), (is_within_iff s target).0 (ground arith))),
    λ (t, e, ne, w). ground (arith, eq_iff s "", eq_iff t "", (is_within_iff t target).1 w),
  )

  denied_iff :
      (a b : Bool) (d : PolicyDecision)
      → d ≢ allow
      → ((if not a && not b then d else allow) ≡ allow) ↔ ((a ≡ true) ⊎ (b ≡ true))
  denied_iff a b d ne = (λ h. ground arith, λ h. ground arith)

  IsConfined-iff :
      (raw : String) (d : PolicyDecision)
      → d ≢ allow
      → let target = resolve_from_workspace host cfg.workspace_root raw in
        ((if not (is_within host cfg.workspace_root target) && not (in_mount host mount target)
            then d
            else allow)
          ≡ allow)
        ↔ IsConfined raw
  IsConfined-iff raw d ne =
      let target = resolve_from_workspace host cfg.workspace_root raw in
      let both =
        denied_iff (is_within host cfg.workspace_root target) (in_mount host mount target) d ne in
      let mounted = in_mount_iff mount target in
      let rooted = is_within_iff cfg.workspace_root target in
      (
        (λ h. elim (both.0 h) [ inl root ↦ inl (rooted.0 root) | inr m ↦ inr (mounted.0 m) ]),
        λ h. both.1 (elim h [ inl root ↦ inl (rooted.1 root) | inr m ↦ inr (mounted.1 m) ]),
      )

  check_path_iff : (v : ArgValue) → (check_path host cfg mount v ≡ allow) ↔ IsConfinedArg v
  unfolding check_path
  check_path_iff null = ((λ h. tt), λ h. refl)
  check_path_iff (other raw) = IsConfined-iff raw (deny (outside_workspace raw)) (λ e. cc)
  check_path_iff (str raw) =
      let confined = IsConfined-iff raw (deny (outside_workspace raw)) (λ e. cc) in
      elim (Bool-cases (str_eq raw "")) [
        | inl none_given ↦ rw none_given ((λ h. inl ((eq_iff raw "").0 none_given)), λ h. refl)
        | inr given ↦ rw given (
          (λ h. inr (confined.0 h)),
          λ h. elim h [ inl e ↦ cc ((eq_iff raw "").1 e) | inr c ↦ confined.1 c ],
        )
      ]

  check_paths_iff :
      (keys : List String) (args : Args)
      → (check_paths host cfg mount keys args ≡ allow) ↔ All (λ key. IsConfinedArg (args key)) keys
  unfolding check_paths
  check_paths_iff [] args = ((λ h. tt), λ h. refl)
  check_paths_iff (key ∷ keys) args =
      let both =
        and_then_iff (check_path host cfg mount (args key))
          (check_paths host cfg mount keys args) in
      let first = check_path_iff (args key) in
      let rest = check_paths_iff keys args in
      ((λ h. (first.0 (both.0 h).0, rest.0 (both.0 h).1)), λ (p, ps). both.1 (first.1 p, rest.1 ps))

  check_deny_list_iff :
      (res : List String) (command : String)
      → (check_deny_list host cfg mount res command ≡ allow)
        ↔ All (λ re. host.matches re command ≡ false) res
  unfolding check_deny_list
  check_deny_list_iff [] command = ((λ h. tt), λ h. refl)
  check_deny_list_iff (re ∷ res) command =
      let rest = check_deny_list_iff res command in
      elim (Bool-cases (host.matches re command)) [
        | inl hit ↦ rw hit ((λ h. cc), λ p. cc (p.0))
        | inr miss ↦ rw miss ((λ h. (refl, rest.0 h)), λ p. rest.1 p.1)
      ]

  abbrev decide : ToolMeta → Args → PolicyDecision
  decide meta args =
      and_then (check_files host cfg mount meta args)
        (and_then (check_shell host cfg mount meta args) (check_network host cfg mount meta))

  abbrev meta_with : ToolKind → Option (List String) → ToolMeta
  meta_with kind paths = record { kind = kind; path_args = paths }

  and_then_allow_iff :
      {P : Type 0} (d : PolicyDecision) → (d ≡ allow) ↔ P → (and_then d allow ≡ allow) ↔ P
  and_then_allow_iff d e = (λ h. e.0 (ground arith), λ p. (and_then_iff d allow).1 (e.1 p, refl))

  check_kind_iff :
      (kind : ToolKind) (paths : Option (List String)) (args : Args)
      → (decide (meta_with kind paths) args ≡ allow)
        ↔ IsPermittedKind kind (meta_with kind paths) args
  unfolding check_files check_shell check_network
  check_kind_iff fs_read paths args =
      and_then_allow_iff (check_paths host cfg mount (paths_of paths) args)
        (check_paths_iff (paths_of paths) args)
  check_kind_iff fs_write paths args =
      and_then_allow_iff (check_paths host cfg mount (paths_of paths) args)
        (check_paths_iff (paths_of paths) args)
  check_kind_iff exec paths args =
      let listed = check_deny_list_iff cfg.shell_deny (command_of (args "command")) in
      elim (Bool-cases cfg.shell_enabled) [
        | inl on ↦ rw on (
            and_then_allow_iff
              (check_deny_list host cfg mount cfg.shell_deny (command_of (args "command")))
              ((λ h. (refl, listed.0 h)), λ p. listed.1 p.1))
        | inr off_switch ↦ rw off_switch ((λ h. cc), λ p. cc (p.0))
      ]
  check_kind_iff net paths args = ((λ h. ground arith), λ h. ground arith)
  check_kind_iff safe paths args = ((λ h. tt), λ h. refl)

  -- An enforcing policy allows a call exactly when its tool's kind permits it: the path from the
  -- workspace or from the mounted user files to every path argument of a file tool is empty, or it
  -- neither begins with `..` nor is absolute; a command is run only with the shell enabled and no
  -- pattern of the deny list matching; and a web tool only with the network enabled. A policy that
  -- is off allows every call.
  pub check_iff :
      (name : String) (args : Args)
      → (cfg.sandbox ≡ off → check host cfg mount name args ≡ allow)
        × (cfg.sandbox ≡ enforce
            → (check host cfg mount name args ≡ allow)
              ↔ IsPermittedKind (meta_of name).kind (meta_of name) args)
  unfolding check
  check_iff name args = (
    (λ e. rw e refl),
    λ e. rw e (check_kind_iff (meta_of name).kind (meta_of name).path_args args),
  )
