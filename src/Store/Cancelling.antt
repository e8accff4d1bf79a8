-- ===== src/Store/Cancelling.antt =====
-- server/src/store/memoryStore.ts, class MemoryStore: `cancelRunsForDeletion` and
-- `cancelShellCommandsForDeletion` against the checks of a deletion.
mod Runs
mod Commands
use run_forge.Store.Cancelling.Runs.{cancel_runs_for_deletion-quiet}
use run_forge.Store.Cancelling.Commands.{
  cancel_shell_commands_for_deletion-quiet, cancel_shell-any_active_run,
}
use run_forge.Base.{
  String, str_eq, eq_iff, Bool, true, false, not, ◌&&◌, ◌||◌, Option, none, some, List, [], ◌∷◌,
  if◌then◌else◌, contains, ◌≡◌, refl, sym, ap, ◌∙◌, arith, inl, inr, Bool-cases, Option-cases,
  holds_row, keys, find_row, set_row, contains-keys, find_row-set_row,
}
use run_forge.Store.Rows.{RunRow, is_terminal_run_status}
use run_forge.Store.Shells.{ShellSessionRow, ShellCommandRow}
use run_forge.Store.State.{MemoryStore, put_run, put_thread}
use run_forge.Store.Runs.Status.{cancel_run, cancel_each, cancel_runs_for_deletion}
use run_forge.Store.Threads.{is_active_command, session_in, has_active_shell_command}
use run_forge.Store.Tenants.{any_active_run}
use run_forge.Store.Tenants.Erasure.{no_row}
use run_forge.Store.Shells.Commands.{
  released_session, cancel_command, cancel_commands, cancel_shell_commands_for_deletion,
}

module _ (targets : List String) (now : String) where
  -- After the runs of some threads and then their shell commands are cancelled for a deletion, the two
  -- checks for active work that the deletion of a tenant or a space makes on these threads pass: no run
  -- of them is unfinished, and no command in a session of them is queued or running.
  pub cancel_for_deletion-quiet :
      (s : MemoryStore)
      → (any_active_run
            (cancel_shell_commands_for_deletion
              (cancel_runs_for_deletion s targets now)
              targets
              now)
            targets
          ≡ false)
        × (has_active_shell_command
              (cancel_shell_commands_for_deletion
                (cancel_runs_for_deletion s targets now)
                targets
                now)
              targets
            ≡ false)
  cancel_for_deletion-quiet s =
      let stopped = cancel_runs_for_deletion s targets now in
      (
        cancel_shell-any_active_run targets now stopped
            ∙ cancel_runs_for_deletion-quiet targets now s,
        cancel_shell_commands_for_deletion-quiet targets now stopped,
      )
