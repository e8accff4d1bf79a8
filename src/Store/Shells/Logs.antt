-- ===== src/Store/Shells/Logs.antt =====
-- server/src/store/memoryStore.ts, class MemoryStore: the log of a shell command.
use run_forge.Base.{
  ℕ, ◌+◌, ◌-◌, String, Bool, List, [], ◌∷◌, ◌++◌, ◌==◌, ltb, if◌then◌else◌, on_some, filter, length,
  take, drop, find_row, set_row, ok, err,
}
use run_forge.Store.Rows.{Scope, failed}
use run_forge.Store.Shells.{ShellLogStream, ShellCommandLogRow}
use run_forge.Store.State.{MemoryStore, owned_command}
use run_forge.Store.Runs.{R, or_value}

abbrev pub logs_of : MemoryStore → String → List ShellCommandLogRow
logs_of s command_id = or_value (find_row command_id s.shell_logs) []

-- `list.length ? list[list.length - 1].seq + 1 : 1`
unfoldable pub next_seq : List ShellCommandLogRow → ℕ
next_seq [] = 1
next_seq (row ∷ rest) = elim rest [ [] ↦ row.seq + 1 | _ ∷ _ ↦ next_seq rest ]

abbrev pub new_log :
    MemoryStore → (command_id now : String) → ShellLogStream → String → ShellCommandLogRow
new_log s command_id now stream chunk = record {
  id = s.shell_log_seq + 1;
  command_id = command_id;
  seq = next_seq (logs_of s command_id);
  stream = stream;
  chunk = chunk;
  created_at = now;
}

unfoldable pub append_shell_command_log :
    MemoryStore
    → Scope
    → (command_id now : String) → ShellLogStream
    → String
    → R (MemoryStore × ShellCommandLogRow)
unfolding owned_command next_seq
append_shell_command_log s scope command_id now stream chunk =
    on_some (owned_command s scope command_id) (err (failed "commandId")) λ _.
      let row : ShellCommandLogRow = new_log s command_id now stream chunk in
      ok (
        record s {
          shell_log_seq = s.shell_log_seq + 1;
          shell_logs = set_row command_id (logs_of s command_id ++ row ∷ []) s.shell_logs;
        },
        row,
      )

abbrev pub is_after : ℕ → ShellCommandLogRow → Bool
is_after since_seq row = ltb since_seq row.seq

unfoldable pub get_shell_command_logs :
    MemoryStore → Scope → String → (since_seq limit : ℕ) → List ShellCommandLogRow
unfolding owned_command
get_shell_command_logs s scope command_id since_seq limit =
    on_some (owned_command s scope command_id) []
      λ _. take limit (filter (is_after since_seq) (logs_of s command_id))

-- `slice(-limit)`: for 0, it is the whole list.
unfoldable last_rows : ℕ → List ShellCommandLogRow → List ShellCommandLogRow
last_rows limit log = if limit == 0 then log else drop (length log - limit) log

unfoldable get_shell_command_log_tail :
    MemoryStore → Scope → String → (since_seq limit : ℕ) → List ShellCommandLogRow
unfolding owned_command last_rows
get_shell_command_log_tail s scope command_id since_seq limit =
    on_some (owned_command s scope command_id) []
      λ _. filter (is_after since_seq) (last_rows limit (logs_of s command_id))
