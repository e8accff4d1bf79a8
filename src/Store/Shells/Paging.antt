-- ===== src/Store/Shells/Paging.antt =====
-- server/src/store/memoryStore.ts, class MemoryStore: reading a log in pages.
use run_forge.Base.{
  ℕ, zero, suc, ◌+◌, String, eq_iff, true, none, some, List, [], ◌∷◌, ◌++◌, ltb, filter, length,
  take, drop, map, ◌≡◌, refl, sym, ap, ◌∙◌, arith, find_row, set_row, find_row-set_row,
}
use run_forge.Store.Rows.{Scope}
use run_forge.Store.Shells.{ShellLogStream, ShellCommandRow, ShellCommandLogRow}
use run_forge.Store.State.{MemoryStore, owned_command, owned_session, owned_thread}
use run_forge.Store.Runs.{or_value}
use run_forge.Store.Calls.{state_or}
use run_forge.Store.Shells.Logs.{
  logs_of, new_log, next_seq, append_shell_command_log, is_after, get_shell_command_logs,
}

-- The numbers of a log count up from `n`.
abbrev IsNumbered : List ShellCommandLogRow → ℕ → Type 0
IsNumbered [] n = Unit
IsNumbered (row ∷ log) n = (row.seq ≡ n) × IsNumbered log (suc n)

next_seq-lem :
    (row : ShellCommandLogRow) (log : List ShellCommandLogRow) (n : ℕ)
    → IsNumbered (row ∷ log) n
    → next_seq (row ∷ log) ≡ n + suc (length log)
unfolding next_seq
next_seq-lem row [] n h = ground arith
next_seq-lem row (next ∷ log) n h = ground (arith, next_seq-lem next log (suc n) h.1)

first_or_next : (log : List ShellCommandLogRow) → IsNumbered log 1 → next_seq log ≡ suc (length log)
unfolding next_seq
first_or_next [] h = refl
first_or_next (row ∷ log) h = next_seq-lem row log 1 h ∙ omega arith

IsNumbered-append :
    (log : List ShellCommandLogRow) (row : ShellCommandLogRow) (n : ℕ)
    → IsNumbered log n
    → row.seq ≡ n + length log
    → IsNumbered (log ++ row ∷ []) n
IsNumbered-append [] row n h e = (e ∙ omega arith, tt)
IsNumbered-append (first ∷ log) row n h e =
    (h.0, IsNumbered-append log row (suc n) h.1 (e ∙ omega arith))

filter-all :
    (k n : ℕ) (log : List ShellCommandLogRow)
    → IsNumbered log n
    → ltb k n ≡ true
    → filter (is_after k) log ≡ log
filter-all k n [] h e = refl
filter-all k n (row ∷ log) h e = ground (arith, filter-all k (suc n) log h.1, h.0)

filter-drop :
    (k n : ℕ) (log : List ShellCommandLogRow)
    → IsNumbered log (suc n)
    → filter (is_after (n + k)) log ≡ drop k log
filter-drop zero n log h = filter-all (n + 0) (suc n) log h (ground arith)
filter-drop (suc k) n [] h = refl
filter-drop (suc k) n (row ∷ log) h =
    let shift : n + suc k ≡ suc n + k = omega arith in
    let rest = ap (λ (m : ℕ). filter (is_after m) log) shift ∙ filter-drop k (suc n) log h.1 in
    ground (arith, rest, h.0)

abbrev pub chunk_of : ShellCommandLogRow → ShellLogStream × String
chunk_of row = (row.stream, row.chunk)

map-append :
    (log more : List ShellCommandLogRow)
    → map chunk_of (log ++ more) ≡ map chunk_of log ++ map chunk_of more
map-append [] more = refl
map-append (row ∷ log) more = ap (λ rest. chunk_of row ∷ rest) (map-append log more)

map-drop :
    (n : ℕ) (log : List ShellCommandLogRow) → map chunk_of (drop n log) ≡ drop n (map chunk_of log)
map-drop zero log = refl
map-drop (suc n) [] = refl
map-drop (suc n) (row ∷ log) = map-drop n log

map-take :
    (n : ℕ) (log : List ShellCommandLogRow) → map chunk_of (take n log) ≡ take n (map chunk_of log)
map-take zero log = refl
map-take (suc n) [] = refl
map-take (suc n) (row ∷ log) = ap (λ rest. chunk_of row ∷ rest) (map-take n log)

append_nil : {A : Type 0} (xs : List A) → xs ++ [] ≡ xs
append_nil [] = refl
append_nil (x ∷ xs) = ap (λ rest. x ∷ rest) (append_nil xs)

append_assoc_one :
    {A : Type 0} (xs : List A) (y : A) (ys : List A) → (xs ++ y ∷ []) ++ ys ≡ xs ++ y ∷ ys
append_assoc_one [] y ys = refl
append_assoc_one (x ∷ xs) y ys = ap (λ rest. x ∷ rest) (append_assoc_one xs y ys)

module _ (scope : Scope) (id now : String) where
  -- The pieces of output are logged one after the other.
  unfoldable pub append_chunks : List (ShellLogStream × String) → MemoryStore → MemoryStore
  append_chunks [] s = s
  append_chunks (chunk ∷ chunks) s =
      append_chunks chunks
        (state_or (λ done. done.0) s (append_shell_command_log s scope id now chunk.0 chunk.1))

  abbrev with_log : MemoryStore → ShellLogStream × String → MemoryStore
  with_log s chunk = record s {
    shell_log_seq = s.shell_log_seq + 1;
    shell_logs = set_row id (logs_of s id ++ new_log s id now chunk.0 chunk.1 ∷ []) s.shell_logs;
  }

  append-lem :
      (s : MemoryStore) (chunk : ShellLogStream × String) {command : ShellCommandRow}
      → owned_command s scope id ≡ some command
      → state_or (λ done. done.0) s (append_shell_command_log s scope id now chunk.0 chunk.1)
        ≡ with_log s chunk
  unfolding append_shell_command_log
  append-lem s chunk mine = rw mine refl

  with_log-owned :
      (s : MemoryStore) (chunk : ShellLogStream × String)
      → owned_command (with_log s chunk) scope id ≡ owned_command s scope id
  unfolding owned_command owned_session owned_thread
  with_log-owned s chunk = refl

  with_log-logs :
      (s : MemoryStore) (chunk : ShellLogStream × String)
      → logs_of (with_log s chunk) id ≡ logs_of s id ++ new_log s id now chunk.0 chunk.1 ∷ []
  with_log-logs s chunk =
      let log = logs_of s id ++ new_log s id now chunk.0 chunk.1 ∷ [] in
      ground (arith, find_row-set_row id id log s.shell_logs, eq_iff id id)

  append_chunks-nil : (s : MemoryStore) → append_chunks [] s ≡ s
  unfolding append_chunks
  append_chunks-nil s = refl

  append_chunks-cons :
      (chunk : ShellLogStream × String) (chunks : List (ShellLogStream × String)) (s : MemoryStore)
      {command : ShellCommandRow}
      → owned_command s scope id ≡ some command
      → append_chunks (chunk ∷ chunks) s ≡ append_chunks chunks (with_log s chunk)
  unfolding append_chunks
  append_chunks-cons chunk chunks s mine = ap (append_chunks chunks) (append-lem s chunk mine)

  append_chunks-logs :
      (chunks : List (ShellLogStream × String)) (s : MemoryStore) {command : ShellCommandRow}
      → owned_command s scope id ≡ some command
      → IsNumbered (logs_of s id) 1
      → (IsNumbered (logs_of (append_chunks chunks s) id) 1)
        × (map chunk_of (logs_of (append_chunks chunks s) id)
            ≡ map chunk_of (logs_of s id) ++ chunks)
        × (owned_command (append_chunks chunks s) scope id ≡ some command)
  append_chunks-logs [] s mine numbered =
      rw (append_chunks-nil s) (numbered, sym (append_nil (map chunk_of (logs_of s id))), mine)
  append_chunks-logs (chunk ∷ chunks) s mine numbered =
      let logged = with_log-logs s chunk in
      let row = new_log s id now chunk.0 chunk.1 in
      let counted : IsNumbered (logs_of (with_log s chunk) id) 1 = rw logged (
        IsNumbered-append (logs_of s id) row 1 numbered
          (first_or_next (logs_of s id) numbered ∙ omega arith)) in
      let shuffle : map chunk_of (logs_of (with_log s chunk) id) ++ chunks
          ≡ map chunk_of (logs_of s id) ++ chunk ∷ chunks =
        rw (logged, map-append (logs_of s id) (row ∷ []))
          (append_assoc_one (map chunk_of (logs_of s id)) chunk chunks) in
      let rest =
        append_chunks-logs chunks (with_log s chunk) (with_log-owned s chunk ∙ mine) counted in
      rw (append_chunks-cons chunk chunks s mine) (rest.0, rest.1 ∙ shuffle, rest.2)

  -- What is logged for a command of the user's that has no log is read back: after the row `since`, at
  -- most `limit` rows, in the order in which they were logged, with their streams.
  pub get_shell_command_logs-append_chunks :
      (chunks : List (ShellLogStream × String)) (s : MemoryStore) (command : ShellCommandRow)
      (since limit : ℕ)
      → owned_command s scope id ≡ some command
      → find_row id s.shell_logs ≡ none
      → map chunk_of (get_shell_command_logs (append_chunks chunks s) scope id since limit)
        ≡ take limit (drop since chunks)
  unfolding get_shell_command_logs
  get_shell_command_logs-append_chunks chunks s command since limit mine empty =
      let all = append_chunks-logs chunks s mine (rw empty tt) in
      let log = logs_of (append_chunks chunks s) id in
      let logged : map chunk_of log ≡ chunks =
        all.1 ∙ ap (λ found. map chunk_of (or_value found []) ++ chunks) empty in
      let zero_plus : since ≡ 0 + since = omega arith in
      let page : filter (is_after since) log ≡ drop since log =
        ap (λ (m : ℕ). filter (is_after m) log) zero_plus ∙ filter-drop since 0 log all.0 in
      rw (all.2, page)
        (map-take limit (drop since log)
          ∙ ap (take limit) (map-drop since log ∙ ap (drop since) logged))
