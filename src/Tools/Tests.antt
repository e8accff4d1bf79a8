-- ===== src/Tools/Tests.antt =====
-- Runs of the tool policy, and its theorems at concrete inputs.
use run_forge.Base.{
  ℕ, ◌*◌, ◌/◌, ◌≤◌, ◌<◌, ◌≡◌, refl, ◌↔◌, true, false, none, [], ◌∷◌, arith, String, str_eq, length,
  Text, decimal, NoNul, replicate,
}
use run_forge.Tools.Policy.{
  off, enforce, disabled, ToolPolicyConfig, allow, deny, command_denied, outside_workspace,
  network_disabled, null, str, Args, Host, meta_of, check, strip_nul, cap_output, marker_of,
  truncate, is_within,
}
use run_forge.Tools.Policy.Cap.{cap_output_bounds}
use run_forge.Tools.Policy.Check.{IsPermittedKind, check_iff}

-- Paths that are given absolute; a relative path is the root's name in front of it, or "..".
abbrev host : Host
host = record {
  resolve = λ p. p;
  resolve_from = λ root p. p;
  relative = λ root p. elim (str_eq p "/w/a") [ true ↦ "a" | false ↦ "../x" ];
  is_absolute = λ p. false;
  matches = λ re command. str_eq re command;
}

abbrev cfg : ToolPolicyConfig
cfg = record {
  sandbox = enforce;
  workspace_root = "/w";
  shell_enabled = true;
  shell_deny = "reboot" ∷ [];
  network = disabled;
  max_output = 30;
}

abbrev with_path : String → Args
with_path p key = elim (str_eq key "path") [ true ↦ str p | false ↦ null ]

abbrev with_command : String → Args
with_command c key = elim (str_eq key "command") [ true ↦ str c | false ↦ null ]

check_tests :
    (check host cfg none "file_read" (with_path "/w/a") ≡ allow)
    × (check host cfg none "file_write" (with_path "/etc") ≡ deny (outside_workspace "/etc"))
    × (check host cfg none "glob" (with_path "") ≡ allow)
    × (check host cfg none "shell" (with_command "ls") ≡ allow)
    × (check host cfg none "shell_exec" (with_command "reboot") ≡ deny (command_denied "reboot"))
    × (check host cfg none "web_fetch" (with_path "/etc") ≡ deny network_disabled)
    × (check host cfg none "unknown" (with_path "/etc") ≡ allow)
unfolding check meta_of is_within
check_tests = (refl, refl, refl, refl, refl, refl, refl)

check_iff_example :
    (cfg.sandbox ≡ off → check host cfg none "shell" (with_command "ls") ≡ allow)
    × (cfg.sandbox ≡ enforce
        → (check host cfg none "shell" (with_command "ls") ≡ allow)
          ↔ IsPermittedKind host cfg none
              (meta_of "shell").kind
              (meta_of "shell")
              (with_command "ls"))
check_iff_example = check_iff host cfg none "shell" (with_command "ls")

abbrev seventy : ℕ → ℕ
seventy n = n * 7 / 10

seventy_le : (n : ℕ) → seventy n ≤ n
seventy_le n = omega arith

abbrev long_output : Text
long_output = replicate 40 b'x'

cap_test : length (cap_output seventy cfg long_output) ≡ 30
unfolding cap_output truncate strip_nul marker_of decimal
cap_test = refl

cap_output_bounds_example :
    NoNul (cap_output seventy cfg long_output)
    × (length (strip_nul long_output) ≤ 30
        → cap_output seventy cfg long_output ≡ strip_nul long_output)
    × (30 < length (strip_nul long_output) → length (cap_output seventy cfg long_output) ≡ 30)
    × (cap_output seventy cfg (cap_output seventy cfg long_output)
        ≡ cap_output seventy cfg long_output)
cap_output_bounds_example = cap_output_bounds seventy seventy_le cfg long_output
