-- ===== src/Store/Shells/Single.antt =====
-- server/src/store/memoryStore.ts, class MemoryStore: a shell session runs one command at a time.
use run_forge.Base.{
  String, Bool, true, false, not, ◌&&◌, ◌||◌, Option, none, some, List, [], ◌∷◌, contains, ◌≡◌,
  refl, arith, inl, inr, Bool-cases, Option-cases, find_row, keys,
}
use run_forge.Store.Rows.{Scope}
use run_forge.Store.Shells.{ShellCommandRow}
use run_forge.Store.State.{MemoryStore, owned_session, owned_command}
use run_forge.Store.Runs.{or_value}
use run_forge.Store.Threads.{is_active_command}
use run_forge.Store.Calls.{state_or}
use run_forge.Store.Shells.Commands.{
  ShellCommandInput, ShellCommandFields, create_shell_command, is_busy, update_shell_command,
  update_shell_command_unscoped, cancel_command, cancel_commands,
  cancel_shell_commands_for_deletion,
}
use run_forge.Store.Shells.Active.{IsSingle, quiet-IsSingle, new-IsSingle, free-active}

-- The change makes an inactive command active.
abbrev wakes : ShellCommandFields → Option ShellCommandRow → Bool
wakes fields none = false
wakes fields (some command) =
    is_active_command (or_value fields.status command.status)
    && not (is_active_command command.status)

pub data ShellCall : Type 0 where
  create : Scope → (id now : String) → ShellCommandInput → ShellCall
  update : Scope → (id now : String) → ShellCommandFields → ShellCall
  update_unscoped : (id now : String) → ShellCommandFields → ShellCall
  cancel : List String → String → ShellCall

unfoldable pub apply_shell : ShellCall → MemoryStore → MemoryStore
apply_shell (create scope id now input) s =
    state_or (λ done. done.0) s (create_shell_command s scope id now input)
apply_shell (update scope id now fields) s = update_shell_command s scope id now fields
apply_shell (update_unscoped id now fields) s = update_shell_command_unscoped s id now fields
apply_shell (cancel thread_ids now) s = cancel_shell_commands_for_deletion s thread_ids now

-- An update makes no inactive command active.
abbrev keeps_asleep : ShellCall → MemoryStore → Bool
keeps_asleep (create _ _ _ _) s = true
keeps_asleep (update _ id _ fields) s = not (wakes fields (find_row id s.shell_commands))
keeps_asleep (update_unscoped id _ fields) s = not (wakes fields (find_row id s.shell_commands))
keeps_asleep (cancel _ _) s = true

owned_command-found :
    (s : MemoryStore) (scope : Scope) (id : String) {command : ShellCommandRow}
    → owned_command s scope id ≡ some command
    → find_row id s.shell_commands ≡ some command
unfolding owned_command
owned_command-found s scope id e = ground (arith, Option-cases (find_row id s.shell_commands))

create-IsSingle :
    (s : MemoryStore)
    → IsSingle s
    → (scope : Scope) (id now : String) (input : ShellCommandInput)
    → IsSingle (state_or (λ done. done.0) s (create_shell_command s scope id now input))
unfolding create_shell_command
create-IsSingle s single scope id now input =
    elim (Option-cases (owned_session s scope input.session_id)) [
      | inl missing ↦ rw missing single
      | inr (session, mine) ↦ elim (Bool-cases (is_busy s input.session_id)) [
        | inl busy ↦ rw (mine, busy) single
        | inr free ↦
            rw (mine, free)
              (new-IsSingle s _ single id _ refl (free-active s input.session_id free))
      ]
    ]

update_unscoped-IsSingle :
    (s : MemoryStore)
    → IsSingle s
    → (id now : String) (fields : ShellCommandFields)
    → wakes fields (find_row id s.shell_commands) ≡ false
    → IsSingle (update_shell_command_unscoped s id now fields)
unfolding update_shell_command_unscoped
update_unscoped-IsSingle s single id now fields asleep =
    elim (Option-cases (find_row id s.shell_commands)) [
      | inl missing ↦ rw missing single
      | inr (command, found) ↦
          rw found (quiet-IsSingle s _ single id command _ found refl (ground (arith, asleep)) refl)
    ]

update-IsSingle :
    (s : MemoryStore)
    → IsSingle s
    → (scope : Scope) (id now : String) (fields : ShellCommandFields)
    → wakes fields (find_row id s.shell_commands) ≡ false
    → IsSingle (update_shell_command s scope id now fields)
unfolding update_shell_command
update-IsSingle s single scope id now fields asleep =
    elim (Option-cases (owned_command s scope id)) [
      | inl missing ↦ rw missing single
      | inr (command, mine) ↦
          let found = owned_command-found s scope id mine in
          rw mine (quiet-IsSingle s _ single id command _ found refl (ground (arith, asleep)) refl)
    ]

cancel_command-IsSingle :
    (s : MemoryStore)
    → IsSingle s
    → (targets : List String) (now id : String) → IsSingle (cancel_command targets now id s)
unfolding cancel_command is_active_command
cancel_command-IsSingle s single targets now id =
    elim (Option-cases (find_row id s.shell_commands)) [
      | inl missing ↦ rw missing single
      | inr (command, found) ↦ elim (Option-cases (find_row command.session_id s.shell_sessions)) [
        | inl gone ↦ rw (found, gone) single
        | inr (session, here) ↦
            elim (Bool-cases (
              not (contains targets session.thread_id) || not (is_active_command command.status))) [
                | inl skipped ↦ rw (found, here, skipped) single
                | inr taken ↦
                    rw (found, here, taken)
                      (quiet-IsSingle s _ single id command _ found refl refl refl)
              ]
      ]
    ]

cancel_commands-IsSingle :
    (s : MemoryStore)
    → IsSingle s
    → (targets : List String) (now : String) (ids : List String)
    → IsSingle (cancel_commands targets now ids s)
unfolding cancel_commands
cancel_commands-IsSingle s single targets now [] = single
cancel_commands-IsSingle s single targets now (id ∷ ids) =
    cancel_commands-IsSingle (cancel_command targets now id s)
      (cancel_command-IsSingle s single targets now id) targets now ids

-- A call that creates, updates or cancels shell commands leaves no session with two commands that are
-- queued or running, if there was none and no update makes an inactive command active again.
pub apply_shell-IsSingle :
    (call : ShellCall) (s : MemoryStore)
    → IsSingle s
    → keeps_asleep call s ≡ true
    → IsSingle (apply_shell call s)
unfolding apply_shell cancel_shell_commands_for_deletion
apply_shell-IsSingle (create scope id now input) s single asleep =
    create-IsSingle s single scope id now input
apply_shell-IsSingle (update scope id now fields) s single asleep =
    update-IsSingle s single scope id now fields (ground (arith, asleep))
apply_shell-IsSingle (update_unscoped id now fields) s single asleep =
    update_unscoped-IsSingle s single id now fields (ground (arith, asleep))
apply_shell-IsSingle (cancel thread_ids now) s single asleep =
    cancel_commands-IsSingle s single thread_ids now (keys s.shell_commands)
