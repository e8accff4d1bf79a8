-- ===== src/Agent/Compaction/Tests.antt =====
-- A short conversation, and the theorems of compaction at it.
use run_forge.Base.{
  max, ◌+◌, ◌-◌, ◌≤◌, ◌≡◌, refl, arith, true, none, some, String, List, [], ◌∷◌, map, any, length,
  drop, codes,
}
use run_forge.Agent.Compaction.{
  LlmRole, system, user, assistant, tool, LlmMessage, Json, is_user, mask_old_tool_results,
  mask_old_assistant_tool_calls, total_chars,
}
use run_forge.Agent.Compaction.Window.{
  SummaryCandidate, summary_candidate, end_before_split, next_end, parent_index, strip_back,
  leading_system, first_user, sliding_window, summary_message,
}
use run_forge.Agent.Compaction.Masking.{pairing, masking-pairing, mask_old_tool_results-shorter}
use run_forge.Agent.Compaction.Cut.{IsSafe, end_before_split-IsSafe}
use run_forge.Agent.Compaction.Candidate.{IsCandidate, summary_candidate-IsCandidate}
use run_forge.Agent.Compaction.Kept.{IsRecent, sliding_window-EndsWith, sliding_window-user}

abbrev message : LlmRole → LlmMessage
message role = record {
  role = role;
  content = some (codes "text");
  content_parts = [];
  media_refs = [];
  tool_calls = [];
  tool_call_id = none;
  provider_state = none;
  collapsed = none;
}

abbrev calling : String → LlmMessage
calling id = record (message assistant) {
  tool_calls = record { id = id; name = "ls"; arguments = codes "{}" } ∷ [];
}

abbrev result : String → LlmMessage
result id = record (message tool) { tool_call_id = some id }

abbrev talk : List LlmMessage
talk =
    message system
    ∷ message user
    ∷ calling "a"
    ∷ result "a"
    ∷ message assistant
    ∷ calling "b"
    ∷ result "b"
    ∷ message assistant
    ∷ []

abbrev json : Json
json = record { of_calls = λ calls. codes "[]"; of_masked = λ name n preview. preview }

masking-pairing_example :
    (map pairing (mask_old_tool_results 2 talk).0 ≡ map pairing talk)
    × (map pairing (mask_old_assistant_tool_calls json 2 [] talk).0 ≡ map pairing talk)
masking-pairing_example = masking-pairing json 2 [] talk

mask_old_tool_results-shorter_example :
    let after = (mask_old_tool_results 2 talk).0 in
    (total_chars json after ≤ total_chars json talk)
    × (drop (length talk - 2) after ≡ drop (length talk - 2) talk)
mask_old_tool_results-shorter_example = mask_old_tool_results-shorter json 2 talk

end_before_split-IsSafe_example : IsSafe 2 6 talk (end_before_split 6 2 6 talk)
end_before_split-IsSafe_example = end_before_split-IsSafe 2 6 talk (omega arith)

abbrev summarized_part : SummaryCandidate
summarized_part = record {
  start = 2;
  end = 5;
  messages = calling "a" ∷ result "a" ∷ message assistant ∷ [];
}

summary_candidate-IsCandidate_example : IsCandidate 2 talk summarized_part
unfolding summary_candidate end_before_split next_end parent_index strip_back leading_system
    first_user
summary_candidate-IsCandidate_example =
    summary_candidate-IsCandidate 2 talk {c = summarized_part} refl

sliding_window-EndsWith_example :
    let window = sliding_window 2 talk in
    let recent = drop (max (leading_system talk) (length talk - 2)) talk in
    (length window.0 + window.1 ≡ length talk) × IsRecent recent window.0
sliding_window-EndsWith_example = sliding_window-EndsWith 2 talk

sliding_window-user_example : any is_user (sliding_window 2 talk).0 ≡ true
unfolding first_user leading_system
sliding_window-user_example = sliding_window-user 2 talk {k = 1} refl

abbrev resumed : List LlmMessage
unfolding summary_message
resumed =
    message system
    ∷ summary_message (codes "done")
    ∷ message user
    ∷ calling "b"
    ∷ result "b"
    ∷ message assistant
    ∷ []
