-- ===== src/Agent/Tests.antt =====
-- Runs of the agent's state, and its theorems at concrete inputs.
use run_forge.Base.{
  ◌≡◌, refl, ◌↔◌, String, true, false, none, some, List, [], ◌∷◌, ◌++◌, map, if◌then◌else◌, any,
  filter,
}
use run_forge.Agent.Goal.{
  PlanStatus, todo, doing, done, failed, PlanItem, working, reporting, completed, GoalState,
  GoalPatch, plan_key, normalize_auto_complete, should_infer_auto_complete, has_key, settled,
  reconcile_plan, merge_goal, finish_goal, is_failed, unfinished_plan_items, can_report_goal,
  report_blocked_message, render_goal,
}
use run_forge.Agent.Goal.Merge.{entry, is_left_out, merge_goal-entries}
use run_forge.Agent.Goal.Report.{can_report_goal_iff, finish_goal-can_report}

abbrev item : String → PlanStatus → PlanItem
item text status = record { text = text; status = status; auto_complete = none }

abbrev goal : GoalState
goal = record {
  intent = "ship";
  phase = working;
  plan = item "read  code" done ∷ item "fix" doing ∷ item "test" todo ∷ [];
  decisions = [];
  next = "fix";
}

abbrev update : List PlanItem
update = item " read code" done ∷ item "write report" todo ∷ []

abbrev patch : GoalPatch
patch = record {
  phase = some reporting;
  plan = some update;
  decisions = some ("d" ∷ []);
  next = none;
}

merge_test :
    map entry (merge_goal goal patch).plan
    ≡ (" read code", done) ∷ ("write report", todo) ∷ ("fix", failed) ∷ ("test", failed) ∷ []
unfolding merge_goal reconcile_plan normalize_auto_complete should_infer_auto_complete has_key
    plan_key
merge_test = refl

merge_goal-entries_example :
    map entry (merge_goal goal patch).plan
    ≡ map entry update
      ++ map (λ i. (i.text, settled i.status)) (filter (is_left_out update) goal.plan)
merge_goal-entries_example = merge_goal-entries goal patch update refl

-- The last item is the report itself, and completes by itself.
abbrev reporting_goal : GoalState
reporting_goal = record goal {
  phase = reporting;
  plan = item "fix" failed ∷ record (item "write report" todo) { auto_complete = some true } ∷ [];
}

report_test :
    (can_report_goal goal ≡ false)
    × (can_report_goal reporting_goal ≡ true)
    × ((finish_goal reporting_goal).next ≡ "已结束（存在失败项）")
unfolding can_report_goal finish_goal
report_test = (refl, refl, refl)

can_report_goal_iff_example : (can_report_goal goal ≡ true) ↔ (report_blocked_message goal ≡ "")
can_report_goal_iff_example = can_report_goal_iff goal

finish_goal-can_report_example :
    (unfinished_plan_items (finish_goal reporting_goal) ≡ [])
    × ((finish_goal reporting_goal).phase ≡ completed)
    × ((finish_goal reporting_goal).next
        ≡ (if any is_failed (finish_goal reporting_goal).plan then "已结束（存在失败项）" else "已完成"))
finish_goal-can_report_example = finish_goal-can_report reporting_goal report_test.1

render_test :
    render_goal (record goal { plan = item "fix" doing ∷ [] })
    ≡ "## 当前目标：每一步都要保持聚焦\n意图：ship\n阶段：working\n计划：\n- [~] fix\n下一步：fix"
unfolding render_goal
render_test = refl
