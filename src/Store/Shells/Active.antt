-- ===== src/Store/Shells/Active.antt =====
-- server/src/store/memoryStore.ts, class MemoryStore: the shell commands that are queued or running.
use run_forge.Base.{
  String, str_eq, eq_iff, false, not, ◌&&◌, Option, none, some, if◌then◌else◌, ◌≡◌, refl, arith,
  inl, inr, Bool-cases, Option-cases, find_row, set_row, find_row-set_row, any_row-found,
}
use run_forge.Spaces.Access.{opt_eq}
use run_forge.Store.Shells.{ShellCommandRow}
use run_forge.Store.State.{MemoryStore}
use run_forge.Store.Threads.{is_active_command}
use run_forge.Store.Shells.Commands.{is_busy}

abbrev session_if_active : Option ShellCommandRow → Option String
session_if_active none = none
session_if_active (some command) =
    if is_active_command command.status then some command.session_id else none

-- The session of a command that is queued or running.
unfoldable pub active : MemoryStore → String → Option String
active s id = session_if_active (find_row id s.shell_commands)

-- No two commands of one session are queued or running.
abbrev pub IsSingle : MemoryStore → Type 0
IsSingle s =
    (i j session_id : String)
    → (opt_eq (active s i) session_id && opt_eq (active s j) session_id && not (str_eq i j)) ≡ false

active-set_row :
    (s s' : MemoryStore) (command : ShellCommandRow) (id : String)
    → s'.shell_commands ≡ set_row id command s.shell_commands
    → (j : String)
    → active s' j ≡ (if str_eq id j then session_if_active (some command) else active s j)
unfolding active
active-set_row s s' command id e j = elim (Bool-cases (str_eq id j)) [
  | inl same ↦ rw (e, find_row-set_row j id command s.shell_commands, same) refl
  | inr other ↦ rw (e, find_row-set_row j id command s.shell_commands, other) refl
]

pub active-of :
    (s : MemoryStore) (id : String) {command : ShellCommandRow}
    → find_row id s.shell_commands ≡ some command
    → active s id ≡ session_if_active (some command)
unfolding active
active-of s id found = rw found refl

-- A command that was not active does not become active, and keeps its session.
pub quiet-IsSingle :
    (s s' : MemoryStore)
    → IsSingle s
    → (id : String) (command command' : ShellCommandRow)
    → find_row id s.shell_commands ≡ some command
    → s'.shell_commands ≡ set_row id command' s.shell_commands
    → (is_active_command command'.status && not (is_active_command command.status)) ≡ false
    → command'.session_id ≡ command.session_id
    → IsSingle s'
quiet-IsSingle s s' single id command command' found set quiet same i j session_id = ground (
  arith,
  single i j session_id,
  active-set_row s s' command' id set i,
  active-set_row s s' command' id set j,
  active-of s id found,
  eq_iff id i,
  eq_iff id j,
)

-- A new command of a session that has no active one.
pub new-IsSingle :
    (s s' : MemoryStore)
    → IsSingle s
    → (id : String) (command' : ShellCommandRow)
    → s'.shell_commands ≡ set_row id command' s.shell_commands
    → ((j : String) → opt_eq (active s j) command'.session_id ≡ false)
    → IsSingle s'
new-IsSingle s s' single id command' set free i j session_id = ground (
  arith,
  single i j session_id,
  active-set_row s s' command' id set i,
  active-set_row s s' command' id set j,
  free i,
  free j,
  eq_iff id i,
  eq_iff id j,
  eq_iff command'.session_id session_id,
)

pub free-active :
    (s : MemoryStore) (session_id : String)
    → is_busy s session_id ≡ false
    → (j : String) → opt_eq (active s j) session_id ≡ false
unfolding active is_busy
free-active s session_id free j = elim (Option-cases (find_row j s.shell_commands)) [
  | inl missing ↦ rw missing refl
  | inr (command, found) ↦
      let busy =
        any_row-found (λ c. str_eq c.session_id session_id && is_active_command c.status) j
          s.shell_commands found in
      rw found (ground (arith, busy))
]
