-- ===== src/Agent/Goal.antt =====
-- server/src/agent/goal.ts and packages/contracts/src/goal.ts: the goal of a run and its plan.
pub mod Merge
pub mod Report
use run_forge.Base.{
  ℕ, ◌≡◌, String, str_eq, Bool, true, false, not, ◌&&◌, ◌||◌, Option, none, some, List, [], ◌∷◌,
  ◌++◌, map, if◌then◌else◌, any, filter, is_empty, codes, trim, collapse_spaces, join, includes_any,
  ◌+s◌,
}

pub data PlanStatus : Type 0 where
  todo doing done failed : PlanStatus

pub record PlanItem : Type 0 where
  pub text : String
  pub status : PlanStatus
  pub auto_complete : Option Bool

pub data GoalPhase : Type 0 where
  working reporting completed : GoalPhase

pub record GoalState : Type 0 where
  pub intent : String
  pub phase : GoalPhase
  pub plan : List PlanItem
  pub decisions : List String
  pub next : String

pub record GoalPatch : Type 0 where
  pub phase : Option GoalPhase
  pub plan : Option (List PlanItem)
  pub decisions : Option (List String)
  pub next : Option String

unfoldable pub init_goal : String → GoalState
init_goal intent = record { intent = intent; phase = working; plan = []; decisions = []; next = "" }

unfoldable pub plan_key : String → String
unfolding trim collapse_spaces
plan_key text = collapse_spaces (trim text)

abbrev pub is_unfinished : PlanItem → Bool
is_unfinished item = elim item.status [ todo ↦ true | doing ↦ true | _ ↦ false ]

-- `item.autoComplete` as a condition.
abbrev pub is_auto : Option Bool → Bool
is_auto none = false
is_auto (some b) = b

-- AUTO_COMPLETE_REPORT_RE
abbrev report_words : List String
report_words = "汇报" ∷ "报告" ∷ "总结" ∷ "最终" ∷ "final" ∷ "report" ∷ "summary" ∷ []

-- `is_last` is `index === plan.length - 1`.
unfoldable pub should_infer_auto_complete : PlanItem → Bool → Bool
unfolding includes_any
should_infer_auto_complete item is_last =
    is_last && is_unfinished item && includes_any report_words (codes item.text)

unfoldable pub normalize_auto_complete : List PlanItem → List PlanItem
normalize_auto_complete [] = []
normalize_auto_complete (item ∷ rest) =
    (if is_auto item.auto_complete || should_infer_auto_complete item (is_empty rest)
      then record item { auto_complete = some true }
      else record item { auto_complete = none })
    ∷ normalize_auto_complete rest

abbrev pub complete_item : PlanItem → PlanItem
complete_item item =
    if is_auto item.auto_complete && is_unfinished item then record item { status = done } else item

unfoldable pub auto_complete_plan_items : GoalState → List PlanItem
auto_complete_plan_items goal = map complete_item goal.plan

-- `incomingKeys.has(planKey(item.text))`
unfoldable pub has_key : List PlanItem → String → Bool
has_key incoming key = any (λ item. str_eq (plan_key item.text) key) incoming

abbrev pub settled : PlanStatus → PlanStatus
settled done = done
settled failed = failed
settled _ = failed

abbrev pub settle_item : PlanItem → PlanItem
settle_item item = record item { status = settled item.status }

abbrev pub is_missing : List PlanItem → PlanItem → Bool
is_missing incoming item = not (has_key incoming (plan_key item.text))

unfoldable pub reconcile_plan : List PlanItem → List PlanItem → List PlanItem
reconcile_plan current incoming =
    normalize_auto_complete (incoming ++ map settle_item (filter (is_missing incoming) current))

-- `value ?? fallback`
abbrev pub or_else {ℓ} : {A : Type ℓ} → Option A → A → A
or_else none a = a
or_else (some b) a = b

abbrev merge_plan : List PlanItem → Option (List PlanItem) → List PlanItem
merge_plan current none = current
merge_plan current (some incoming) = reconcile_plan current incoming

abbrev merge_decisions : List String → Option (List String) → List String
merge_decisions current none = current
merge_decisions current (some []) = current
merge_decisions current (some (d ∷ ds)) = current ++ d ∷ ds

-- `goal.phase` is always set in the model, as its type says, so the last `?? 'working'` has no place.
unfoldable pub merge_goal : GoalState → GoalPatch → GoalState
merge_goal goal patch = record {
  intent = goal.intent;
  phase = or_else patch.phase goal.phase;
  plan = merge_plan goal.plan patch.plan;
  decisions = merge_decisions goal.decisions patch.decisions;
  next = or_else patch.next goal.next;
}

abbrev pub is_failed : PlanItem → Bool
is_failed item = elim item.status [ failed ↦ true | _ ↦ false ]

unfoldable pub finish_goal : GoalState → GoalState
unfolding auto_complete_plan_items
finish_goal goal =
    let plan = auto_complete_plan_items goal in
    record goal {
      phase = completed;
      plan = plan;
      next =
          if any is_failed plan
          then "已结束（存在失败项）"
          else if any is_unfinished plan
          then "已结束（存在未完成项）"
          else "已完成";
    }

unfoldable pub unfinished_plan_items : GoalState → List PlanItem
unfinished_plan_items goal = filter is_unfinished goal.plan

abbrev pub is_reportable_phase : GoalPhase → Bool
is_reportable_phase working = false
is_reportable_phase reporting = true
is_reportable_phase completed = true

abbrev pub is_blocking : PlanItem → Bool
is_blocking item = not (is_auto item.auto_complete)

unfoldable pub can_report_goal : GoalState → Bool
unfolding unfinished_plan_items
can_report_goal goal =
    let unfinished = unfinished_plan_items goal in
    if any is_blocking unfinished
    then false
    else if not (is_empty unfinished) && not (is_reportable_phase goal.phase)
    then false
    else is_empty goal.plan || is_reportable_phase goal.phase

abbrev box : PlanStatus → String
box done = "x"
box doing = "~"
box todo = " "
box failed = "!"

abbrev plan_line : PlanItem → String
plan_line item = "- [" +s box item.status +s "] " +s item.text

abbrev pub phase_notice : String
phase_notice =
    "最终汇报已被暂缓：当前 goal 仍处于 working，请先调用 update_plan 把 phase 设置为 reporting 或 completed，再输出最终汇报。"

unfoldable pub blocked_notice : List PlanItem → String
unfolding join
blocked_notice blocking = join "\n" (
    "最终汇报已被暂缓：当前计划仍有未收口条目。"
    ∷ (map plan_line blocking
        ++ "请先继续执行，或调用 update_plan 把真实失败的条目标记为 failed、把已完成的条目标记为 done；只有最终汇报/总结步骤可以设置 autoComplete=true 并在完整回答输出后自动完成。"
          ∷ []))

unfoldable pub report_blocked_message : GoalState → String
unfolding unfinished_plan_items
report_blocked_message goal =
    let blocking = filter is_blocking (unfinished_plan_items goal) in
    if not (is_empty goal.plan) && is_empty blocking && not (is_reportable_phase goal.phase)
    then phase_notice
    else if is_empty blocking
    then ""
    else blocked_notice blocking

abbrev plan_line_marked : PlanItem → String
plan_line_marked item = plan_line item +s (if is_auto item.auto_complete then "（最终回答后自动完成）" else "")

abbrev phase_name : GoalPhase → String
phase_name working = "working"
phase_name reporting = "reporting"
phase_name completed = "completed"

unfoldable pub render_goal : GoalState → String
unfolding join
render_goal goal = join "\n" (
    "## 当前目标：每一步都要保持聚焦"
    ∷ ("意图：" +s goal.intent)
    ∷ ("阶段：" +s phase_name goal.phase)
    ∷ ((if is_empty goal.plan then [] else "计划：" ∷ map plan_line_marked goal.plan)
        ++ ((if is_empty goal.decisions then [] else ("已记录决策：" +s join "; " goal.decisions) ∷ [])
            ++ (if str_eq goal.next "" then [] else ("下一步：" +s goal.next) ∷ []))))
