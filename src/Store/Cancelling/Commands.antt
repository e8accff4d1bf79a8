-- ===== src/Store/Cancelling/Commands.antt =====
-- server/src/store/memoryStore.ts, class MemoryStore, `cancelShellCommandsForDeletion`.
use run_forge.Base.{
  String, str_eq, eq_iff, Bool, true, false, not, ◌&&◌, ◌||◌, Option, none, some, List, [], ◌∷◌,
  if◌then◌else◌, contains, ◌≡◌, refl, sym, ap, ◌∙◌, arith, inl, inr, Bool-cases, Option-cases,
  holds_row, keys, find_row, set_row, contains-keys, find_row-set_row,
}
use run_forge.Store.Shells.{ShellSessionRow, ShellCommandRow}
use run_forge.Store.State.{MemoryStore}
use run_forge.Store.Threads.{is_active_command, session_in, has_active_shell_command}
use run_forge.Store.Tenants.{any_active_run}
use run_forge.Store.Tenants.Erasure.{no_row}
use run_forge.Store.Shells.Commands.{
  released_session, cancel_command, cancel_commands, cancel_shell_commands_for_deletion,
}

module _ (targets : List String) (now : String) where
  -- A command that is queued or running in a session of the threads.
  busy_in : MemoryStore → ShellCommandRow → Bool
  busy_in s command =
      is_active_command command.status
      && session_in targets (find_row command.session_id s.shell_sessions)

  pub busy : MemoryStore → String → Bool
  busy s c = holds_row (busy_in s) (find_row c s.shell_commands)

  busy-of :
      (s : MemoryStore) (id : String) (o : Option ShellCommandRow)
      → find_row id s.shell_commands ≡ o
      → busy s id ≡ holds_row (busy_in s) o
  unfolding busy
  busy-of s id o found = rw found refl

  skip-busy :
      (s : MemoryStore) (id c : String)
      → busy s id ≡ false
      → busy s c ≡ (if str_eq id c then false else busy s c)
  skip-busy s id c quiet = elim (Bool-cases (str_eq id c)) [
    | inl same ↦ rw same (ap (busy s) (sym ((eq_iff id c).0 same)) ∙ quiet)
    | inr other ↦ rw other refl
  ]

  -- A session that is replaced stays in its thread.
  session-kept :
      (s : MemoryStore) (k : String) (session session' : ShellSessionRow)
      → find_row k s.shell_sessions ≡ some session
      → session'.thread_id ≡ session.thread_id
      → (j : String)
      → session_in targets (find_row j (set_row k session' s.shell_sessions))
        ≡ session_in targets (find_row j s.shell_sessions)
  session-kept s k session session' found same j = elim (Bool-cases (str_eq k j)) [
    | inl at_k ↦
        let there : find_row j s.shell_sessions ≡ some session =
          ap (λ name. find_row name s.shell_sessions) (sym ((eq_iff k j).0 at_k)) ∙ found in
        rw (find_row-set_row j k session' s.shell_sessions, at_k, there)
          (ap (contains targets) same)
    | inr other ↦ rw (find_row-set_row j k session' s.shell_sessions, other) refl
  ]

  busy-same :
      (s s' : MemoryStore)
      → ((j : String)
          → session_in targets (find_row j s'.shell_sessions)
            ≡ session_in targets (find_row j s.shell_sessions))
      → (o : Option ShellCommandRow) → holds_row (busy_in s') o ≡ holds_row (busy_in s) o
  unfolding busy_in
  busy-same s s' kept none = refl
  busy-same s s' kept (some command) =
      ap (λ b. is_active_command command.status && b) (kept command.session_id)

  -- A command that is over is set, and its session stays in its thread.
  over-busy :
      (s s' : MemoryStore) (id : String) (command' : ShellCommandRow)
      → s'.shell_commands ≡ set_row id command' s.shell_commands
      → is_active_command command'.status ≡ false
      → ((j : String)
          → session_in targets (find_row j s'.shell_sessions)
            ≡ session_in targets (find_row j s.shell_sessions))
      → (c : String) → busy s' c ≡ (if str_eq id c then false else busy s c)
  unfolding busy busy_in
  over-busy s s' id command' set over kept c = elim (Bool-cases (str_eq id c)) [
    | inl same ↦ rw (set, find_row-set_row c id command' s.shell_commands, same, over) refl
    | inr other ↦
        rw (set, find_row-set_row c id command' s.shell_commands, other)
          (busy-same s s' kept (find_row c s.shell_commands))
  ]

  idle_command :
      (s : MemoryStore) (command : ShellCommandRow) (session : ShellSessionRow)
      → find_row command.session_id s.shell_sessions ≡ some session
      → (not (contains targets session.thread_id) || not (is_active_command command.status)) ≡ true
      → busy_in s command ≡ false
  unfolding busy_in
  idle_command s command session here skipped = rw here (ground (arith, skipped))

  lost_command :
      (s : MemoryStore) (command : ShellCommandRow)
      → find_row command.session_id s.shell_sessions ≡ none
      → busy_in s command ≡ false
  unfolding busy_in
  lost_command s command gone = rw gone (ground arith)

  cancel_command-busy :
      (s : MemoryStore) (id c : String)
      → busy (cancel_command targets now id s) c ≡ (if str_eq id c then false else busy s c)
  unfolding cancel_command is_active_command
  cancel_command-busy s id c = elim (Option-cases (find_row id s.shell_commands)) [
    | inl missing ↦ rw missing (skip-busy s id c (busy-of s id none missing))
    | inr (command, found) ↦ elim (Option-cases (find_row command.session_id s.shell_sessions)) [
      | inl gone ↦
          rw (found, gone)
            (skip-busy s id c (busy-of s id (some command) found ∙ lost_command s command gone))
      | inr (session, here) ↦
          elim (Bool-cases
            (not (contains targets session.thread_id) || not (is_active_command command.status))) [
              | inl skipped ↦
                  rw (found, here, skipped)
                    (skip-busy s id c (
                      busy-of s id (some command) found
                      ∙ idle_command s command session here skipped))
              | inr taken ↦
                  rw (found, here, taken)
                    (over-busy s _ id _ refl refl
                      (session-kept s command.session_id session (released_session now session) here
                        refl)
                      c)
            ]
    ]
  ]

  cancel_commands-busy :
      (ids : List String) (s : MemoryStore) (c : String)
      → busy (cancel_commands targets now ids s) c ≡ (if contains ids c then false else busy s c)
  unfolding cancel_commands contains
  cancel_commands-busy [] s c = refl
  cancel_commands-busy (id ∷ ids) s c = ground (
    arith,
    cancel_commands-busy ids (cancel_command targets now id s) c,
    cancel_command-busy s id c,
  )

  uncovered-busy :
      (s : MemoryStore) (c : String)
      → (if contains (keys s.shell_commands) c then false else busy s c) ≡ false
  uncovered-busy s c = elim (Option-cases (find_row c s.shell_commands)) [
    | inl missing ↦ ground (arith, busy-of s c none missing)
    | inr (command, found) ↦ ground (arith, contains-keys c s.shell_commands found)
  ]

  -- After the shell commands of some threads are cancelled for a deletion, none of them is queued or
  -- running in a session of the threads, so that this check of the deletion passes.
  pub cancel_shell_commands_for_deletion-quiet :
      (s : MemoryStore)
      → has_active_shell_command (cancel_shell_commands_for_deletion s targets now) targets ≡ false
  unfolding has_active_shell_command cancel_shell_commands_for_deletion busy busy_in
  cancel_shell_commands_for_deletion-quiet s =
      let after = cancel_commands targets now (keys s.shell_commands) s in
      no_row (busy_in after) after.shell_commands
        λ c. cancel_commands-busy (keys s.shell_commands) s c ∙ uncovered-busy s c

  cancel_command-runs :
      (s : MemoryStore) (id : String) → (cancel_command targets now id s).runs ≡ s.runs
  unfolding cancel_command
  cancel_command-runs s id = elim (Option-cases (find_row id s.shell_commands)) [
    | inl missing ↦ rw missing refl
    | inr (command, found) ↦ elim (Option-cases (find_row command.session_id s.shell_sessions)) [
      | inl gone ↦ rw (found, gone) refl
      | inr (session, here) ↦
          elim (Bool-cases
            (not (contains targets session.thread_id) || not (is_active_command command.status))) [
              | inl skipped ↦ rw (found, here, skipped) refl
              | inr taken ↦ rw (found, here, taken) refl
            ]
    ]
  ]

  cancel_commands-runs :
      (ids : List String) (s : MemoryStore) → (cancel_commands targets now ids s).runs ≡ s.runs
  unfolding cancel_commands
  cancel_commands-runs [] s = refl
  cancel_commands-runs (id ∷ ids) s =
      cancel_commands-runs ids (cancel_command targets now id s) ∙ cancel_command-runs s id

  pub cancel_shell-any_active_run :
      (s : MemoryStore)
      → any_active_run (cancel_shell_commands_for_deletion s targets now) targets
        ≡ any_active_run s targets
  unfolding any_active_run cancel_shell_commands_for_deletion
  cancel_shell-any_active_run s = rw (cancel_commands-runs (keys s.shell_commands) s) refl
