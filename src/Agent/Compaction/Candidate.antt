-- ===== src/Agent/Compaction/Candidate.antt =====
-- The messages that a summary replaces.
use run_forge.Base.{
  ℕ, zero, suc, ◌-◌, ◌≤◌, ◌<◌, ◌≡◌, refl, Bool, false, not, ◌&&◌, Option, none, some, List, arith,
  ltb, leb, any, length, take, drop, get_elem?, Bool-cases, inl, inr, OnSome-value, OnSome-unless,
}
use run_forge.Agent.Compaction.{LlmMessage, is_tool, is_system}
use run_forge.Agent.Compaction.Window.{
  end_before_split, tests, strip_back, protected_end, has_calls, SummaryCandidate, initial_end,
  candidate, summary_candidate,
}
use run_forge.Agent.Compaction.Cut.{end_before_split-IsSafe}

strip_back-le :
    (p : LlmMessage → Bool) (start end : ℕ) (messages : List LlmMessage)
    → strip_back p start end messages ≤ end
unfolding strip_back
strip_back-le p start zero messages = omega arith
strip_back-le p start (suc end) messages = ground (arith, strip_back-le p start end messages)

abbrev before : ℕ → List LlmMessage → Option LlmMessage
before zero messages = none
before (suc end) messages = get_elem? messages end

-- The message before a position, if there is one, fails a test.
abbrev pub EndsOutside : (LlmMessage → Bool) → ℕ → List LlmMessage → Type 0
EndsOutside p end messages = tests p (before end messages) ≡ false

strip_back-EndsOutside :
    (p : LlmMessage → Bool) (start end : ℕ) (messages : List LlmMessage)
    → start < strip_back p start end messages
    → EndsOutside p (strip_back p start end messages) messages
unfolding strip_back
strip_back-EndsOutside p start zero messages h = refl
strip_back-EndsOutside p start (suc end) messages h =
    elim (Bool-cases (ltb start (suc end) && tests p (get_elem? messages end))) [
      | inl strip ↦
          rw (strip, strip_back)
            (strip_back-EndsOutside p start end messages (rw (strip, strip_back) at h))
      | inr stay ↦ rw (stay, strip_back) (ground arith)
    ]

-- The messages that are to be summarized: what comes after the leading system messages and the first
-- user's message, ends before the recent messages and not with a call that waits for its results.
pub record IsCandidate (keep_recent : ℕ) (messages : List LlmMessage) (c : SummaryCandidate)
    : Type 0 where
  pub from_protected : c.start ≡ protected_end messages
  pub ordered : c.start < c.end
  pub leaves_recent : c.end ≤ length messages - keep_recent
  pub ends_settled : EndsOutside has_calls c.end messages
  pub slice : c.messages ≡ drop c.start (take c.end messages)

-- Messages to summarize that are found stand between the protected ones and the recent ones, and do
-- not end with an assistant's calls.
pub summary_candidate-IsCandidate :
    (keep_recent : ℕ) (messages : List LlmMessage) {c : SummaryCandidate}
    → summary_candidate keep_recent messages ≡ some c
    → IsCandidate keep_recent messages c
unfolding summary_candidate
summary_candidate-IsCandidate keep_recent messages =
    let P = IsCandidate keep_recent messages in
    let found = candidate keep_recent messages in
    let start = protected_end messages in
    let initial = initial_end keep_recent messages in
    let unsplit = end_before_split initial start initial messages in
    let stripped = strip_back is_tool start unsplit messages in
    let safe = end_before_split-IsSafe start initial messages (omega arith) in
    OnSome-value P (
      OnSome-unless P (leb found.end found.start) _ λ inside.
        OnSome-unless P (not (any (λ m. not (is_system m)) found.messages)) (some found) λ _.
          record {
            from_protected = refl;
            ordered = ground arith;
            leaves_recent = ground (
              arith,
              safe.below,
              strip_back-le is_tool start unsplit messages,
              strip_back-le has_calls start stripped messages,
            );
            ends_settled = strip_back-EndsOutside has_calls start stripped messages (ground arith);
            slice = refl;
          })
