-- ===== src/Agent/Goal/Report.antt =====
-- When a run may report, and what is left of its plan when it has.
use Prim.Native.Char.{Char}
use text.Mathlib.TextLemmas.{cons-append}
use run_forge.Base.{
  ◌≡◌, refl, ◌≢◌, ◌↔◌, String, true, false, not, List, [], ◌∷◌, map, arith, if◌then◌else◌, any,
  filter, is_empty, ◌+s◌, join,
}
use run_forge.Agent.Goal.{
  PlanItem, completed, GoalState, is_unfinished, complete_item, is_failed, finish_goal,
  unfinished_plan_items, is_blocking, can_report_goal, report_blocked_message, blocked_notice,
  phase_notice,
}

any-filter :
    (items : List PlanItem) → any is_blocking items ≡ not (is_empty (filter is_blocking items))
any-filter [] = refl
any-filter (item ∷ items) = ground (arith, any-filter items)

+s-ne_empty : (c : Char) (s t : String) → String.◌∷◌ c s +s t ≢ ""
+s-ne_empty c s t e = cc (cons-append c s t, e)

join-ne_empty :
    (separator : String) (c : Char) (s : String) (rest : List String)
    → join separator (String.◌∷◌ c s ∷ rest) ≢ ""
unfolding join
join-ne_empty separator c s [] e = cc
join-ne_empty separator c s (x ∷ rest) e =
    +s-ne_empty c s (separator +s join separator (x ∷ rest)) e

blocked_notice-ne_empty : (items : List PlanItem) → blocked_notice items ≢ ""
unfolding blocked_notice
blocked_notice-ne_empty items = join-ne_empty "\n" "最" "终汇报已被暂缓：当前计划仍有未收口条目。" _

unfinished-empty : (goal : GoalState) → is_empty goal.plan ≡ true → unfinished_plan_items goal ≡ []
unfolding unfinished_plan_items
unfinished-empty goal h = ground arith

phase_notice-ne_empty : phase_notice ≢ ""
phase_notice-ne_empty = cc

-- A run may report exactly when there is nothing that the model is told to do before it.
pub can_report_goal_iff :
    (goal : GoalState) → (can_report_goal goal ≡ true) ↔ (report_blocked_message goal ≡ "")
can_report_goal_iff goal =
    let items = unfinished_plan_items goal in
    let blocking = any-filter items in
    let none_left = unfinished-empty goal in
    let notice = blocked_notice-ne_empty (filter is_blocking items) in
    (
      (λ h.
          unfold can_report_goal report_blocked_message in
          ground (arith, blocking, none_left, notice, phase_notice-ne_empty)),
      λ h.
          unfold can_report_goal report_blocked_message in
          ground (arith, blocking, none_left, notice, phase_notice-ne_empty),
    )

unfinished-map-complete_item :
    (items : List PlanItem)
    → any is_blocking (filter is_unfinished items) ≡ false
    → filter is_unfinished (map complete_item items) ≡ []
unfinished-map-complete_item [] h = refl
unfinished-map-complete_item (item ∷ items) h = ground (arith, unfinished-map-complete_item items)

any-filter_unfinished :
    (items : List PlanItem) → filter is_unfinished items ≡ [] → any is_unfinished items ≡ false
any-filter_unfinished [] h = refl
any-filter_unfinished (item ∷ items) h = ground (arith, any-filter_unfinished items)

free_of_blocking :
    (goal : GoalState)
    → can_report_goal goal ≡ true
    → any is_blocking (filter is_unfinished goal.plan) ≡ false
unfolding can_report_goal
free_of_blocking goal h = ground arith

-- When a run that may report is finished, its goal is completed, no item of its plan is left
-- unfinished, and the next step says that it is completed or that it ended with a failed item.
pub finish_goal-can_report :
    (goal : GoalState)
    → can_report_goal goal ≡ true
    → (unfinished_plan_items (finish_goal goal) ≡ [])
      × ((finish_goal goal).phase ≡ completed)
      × ((finish_goal goal).next
          ≡ (if any is_failed (finish_goal goal).plan then "已结束（存在失败项）" else "已完成"))
unfolding can_report_goal finish_goal
finish_goal-can_report goal h =
    let free = free_of_blocking goal h in
    let rest = unfinished-map-complete_item goal.plan free in
    (rest, refl, ground (arith, any-filter_unfinished (map complete_item goal.plan) rest))

complete_item_idem :
    (items : List PlanItem) → map complete_item (map complete_item items) ≡ map complete_item items
complete_item_idem [] = refl
complete_item_idem (item ∷ items) = ground (arith, complete_item_idem items)

-- Finishing a goal a second time changes nothing.
pub finish_goal_idem : (goal : GoalState) → finish_goal (finish_goal goal) ≡ finish_goal goal
unfolding finish_goal
finish_goal_idem goal = rw (complete_item_idem goal.plan)
