-- ===== src/Agent/Compaction/Window.antt =====
-- server/src/agent/compaction.ts: the messages to summarize, and the sliding window.
-- `kept.has(message)` is told by positions, since the objects of a list of messages are distinct.
use run_forge.Base.{
  ℕ, zero, suc, ◌+◌, ◌-◌, min, max, String, str_eq, Bool, false, not, ◌&&◌, ◌||◌, Option, none,
  some, List, [], ◌∷◌, ◌++◌, ltb, leb, ◌==◌, if◌then◌else◌, truthy, is_some, is_empty, any, length,
  take, drop, get_elem?, is_space, Text, codes,
}
use run_forge.Agent.Compaction.{
  system, LlmMessage, summarized, is_tool, is_user, is_assistant, is_system, is_summarized,
  trim_end,
}

unfoldable pub leading_system : List LlmMessage → ℕ
leading_system [] = 0
leading_system (m ∷ ms) =
    let rest = leading_system ms in if is_system m && not (is_summarized m) then rest + 1 else 0

-- Whether the message, of an assistant, makes a call with the id.
abbrev pub calls_id : String → LlmMessage → Bool
calls_id id m = is_assistant m && any (λ call. str_eq call.id id) m.tool_calls

-- `parentIndexByCallId.get(id)`: the last of the messages from `start` to before `end` that has the call.
unfoldable pub parent_index : ℕ → ℕ → String → ℕ → List LlmMessage → Option ℕ
parent_index start end id i [] = none
parent_index start end id i (m ∷ ms) =
    let later = parent_index start end id (i + 1) ms in
    if is_some later
    then later
    else if leb start i && ltb i end && calls_id id m
    then some i
    else none

-- The id of a result, if it is set.
abbrev pub result_id : LlmMessage → Option String
result_id m = if is_tool m && truthy m.tool_call_id then m.tool_call_id else none

abbrev pub parent_of : ℕ → ℕ → List LlmMessage → LlmMessage → Option ℕ
parent_of start end messages m = elim (result_id m) [
  | none ↦ none
  | some id ↦ parent_index start end id 0 messages
]

abbrev pub least : ℕ → Option ℕ → ℕ
least n none = n
least n (some k) = min n k

unfoldable pub next_end : ℕ → ℕ → List LlmMessage → ℕ → List LlmMessage → ℕ
unfolding parent_index
next_end start end messages i [] = end
next_end start end messages i (m ∷ ms) =
    let rest = next_end start end messages (i + 1) ms in
    if leb end i then least rest (parent_of start end messages m) else rest

-- The loop of `summaryEndBeforeSplitToolRound`; each round makes `end` smaller, so a fuel of `end` is enough.
unfoldable pub end_before_split : ℕ → ℕ → ℕ → List LlmMessage → ℕ
unfolding next_end
end_before_split zero start end messages = end
end_before_split (suc fuel) start end messages =
    let next = next_end start end messages 0 messages in
    let rest = end_before_split fuel start next messages in
    if leb end start then end else if next == end then end else rest

abbrev pub tests : (LlmMessage → Bool) → Option LlmMessage → Bool
tests p none = false
tests p (some m) = p m

-- `while (end > start && p(messages[end - 1])) end -= 1`
unfoldable pub strip_back : (LlmMessage → Bool) → ℕ → ℕ → List LlmMessage → ℕ
strip_back p start zero messages = zero
strip_back p start (suc end) messages =
    let rest = strip_back p start end messages in
    if ltb start (suc end) && tests p (get_elem? messages end) then rest else suc end

-- The first position from `start` on with a user's message.
unfoldable pub first_user : ℕ → ℕ → List LlmMessage → Option ℕ
first_user start i [] = none
first_user start i (m ∷ ms) =
    let rest = first_user start (i + 1) ms in if leb start i && is_user m then some i else rest

abbrev pub protected_end : List LlmMessage → ℕ
protected_end messages = elim (first_user (leading_system messages) 0 messages) [
  | none ↦ leading_system messages
  | some i ↦ i + 1
]

abbrev pub has_calls : LlmMessage → Bool
has_calls m = is_assistant m && not (is_empty m.tool_calls)

pub record SummaryCandidate : Type 0 where
  pub start : ℕ
  pub end : ℕ
  pub messages : List LlmMessage

abbrev pub initial_end : ℕ → List LlmMessage → ℕ
initial_end keep_recent messages = max (protected_end messages) (length messages - keep_recent)

abbrev pub candidate_end : ℕ → List LlmMessage → ℕ
candidate_end keep_recent messages =
    let start = protected_end messages in
    let initial = initial_end keep_recent messages in
    let unsplit = end_before_split initial start initial messages in
    strip_back has_calls start (strip_back is_tool start unsplit messages) messages

abbrev pub candidate : ℕ → List LlmMessage → SummaryCandidate
candidate keep_recent messages =
    let start = protected_end messages in
    let end = candidate_end keep_recent messages in
    record { start = start; end = end; messages = drop start (take end messages) }

unfoldable pub summary_candidate : ℕ → List LlmMessage → Option SummaryCandidate
unfolding leading_system first_user end_before_split strip_back
summary_candidate keep_recent messages =
    let found = candidate keep_recent messages in
    if leb found.end found.start
    then none
    else if not (any (λ m. not (is_system m)) found.messages)
    then none
    else some found

-- The last summary from `start` on.
unfoldable pub last_summary : ℕ → ℕ → List LlmMessage → Option ℕ
last_summary start i [] = none
last_summary start i (m ∷ ms) =
    let later = last_summary start (i + 1) ms in
    if is_some later
    then later
    else if leb start i && is_system m && is_summarized m
    then some i
    else none

-- The number of results at the front, which a window must not begin with.
unfoldable pub leading_tools : List LlmMessage → ℕ
leading_tools [] = 0
leading_tools (m ∷ ms) = let rest = leading_tools ms in if is_tool m then rest + 1 else 0

abbrev pub desired_start : ℕ → List LlmMessage → ℕ
desired_start keep_recent messages = max (leading_system messages) (length messages - keep_recent)

abbrev pub window_start : ℕ → List LlmMessage → ℕ
window_start keep_recent messages =
    let desired = desired_start keep_recent messages in
    desired + leading_tools (drop desired messages)

abbrev pub is_at : ℕ → Option ℕ → Bool
is_at i none = false
is_at i (some j) = i == j

abbrev pub is_kept : List LlmMessage → ℕ → ℕ → Bool
is_kept messages start i =
    let system_end = leading_system messages in
    ltb i system_end
    || is_at i (first_user system_end 0 messages)
    || is_at i (last_summary system_end 0 messages)
    || leb start i

unfoldable pub filter_at : (ℕ → Bool) → ℕ → List LlmMessage → List LlmMessage
filter_at p i [] = []
filter_at p i (m ∷ ms) = let rest = filter_at p (i + 1) ms in if p i then m ∷ rest else rest

-- `firstUserIdx + 1`, where no index is -1.
abbrev pub after_index : Option ℕ → ℕ
after_index none = 0
after_index (some i) = i + 1

unfoldable pub sliding_window : ℕ → List LlmMessage → List LlmMessage × ℕ
unfolding leading_system first_user last_summary leading_tools filter_at
sliding_window keep_recent messages =
    let system_end = leading_system messages in
    let start = window_start keep_recent messages in
    let compacted = filter_at (is_kept messages start) 0 messages in
    let dropped = length messages - length compacted in
    if not (is_some (last_summary system_end 0 messages))
        && leb start (after_index (first_user system_end 0 messages))
      || leb (length messages) start
    then (messages, 0)
    else if ltb 0 dropped
    then (compacted, dropped)
    else (messages, 0)

drop_spaces : Text → Text
drop_spaces [] = []
drop_spaces (c ∷ s) = let rest = drop_spaces s in if is_space c then rest else c ∷ s

unfoldable pub summary_message : Text → LlmMessage
unfolding drop_spaces trim_end
summary_message summary = record {
  role = system;
  content = some (codes "L3 锚定摘要：\n" ++ trim_end (drop_spaces summary));
  content_parts = [];
  media_refs = [];
  tool_calls = [];
  tool_call_id = none;
  provider_state = none;
  collapsed = some summarized;
}
