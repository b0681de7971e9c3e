-- ===== src/Controller/Schedule.antt =====
-- `ScheduleTrigger` of core/pkg/engine/trigger/trigger.go. The package cron is told by its entries and
-- whether it runs; `parses` says which expressions AddFunc takes, whose error is dropped.
use flowgent.Prelude.{
  String, Bool, true, false, not, List, [], ◌∷◌, ◌++◌, ◌==◌, ◌&&◌, if◌then◌else◌,
}
use flowgent.Prelude.Dict.{Dict, put}
use flowgent.Dag.{Flow, TriggerDef}

-- An entry is a flow and its expression.
pub record ScheduleTrigger : Type 0 where
  pub entries : List (String × String)
  pub is_running : Bool
  pub specs : Dict String

unfoldable pub new_schedule_trigger : ScheduleTrigger
new_schedule_trigger = record { entries = []; is_running = false; specs = [] }

-- The body of the loop over a flow's triggers.
unfoldable pub register_trigger :
    (String → Bool) → String → TriggerDef → ScheduleTrigger → ScheduleTrigger
register_trigger parses flow_id t st =
    if t.type == "schedule" && not (t.cron == "")
    then record st {
      specs = put st.specs flow_id t.cron;
      entries = if parses t.cron then st.entries ++ ((flow_id, t.cron) ∷ []) else st.entries;
    }
    else st

unfoldable pub register_triggers :
    (String → Bool) → String → List TriggerDef → ScheduleTrigger → ScheduleTrigger
register_triggers parses flow_id [] st = st
register_triggers parses flow_id (t ∷ ts) st =
    register_triggers parses flow_id ts (register_trigger parses flow_id t st)

-- RegisterAgentFlows
unfoldable pub register_agent_flows :
    (String → Bool) → List Flow → ScheduleTrigger → ScheduleTrigger
unfolding register_triggers register_trigger
register_agent_flows parses [] st = st
register_agent_flows parses (f ∷ fs) st =
    register_agent_flows parses fs (register_triggers parses f.id f.triggers st)

unfoldable pub start : ScheduleTrigger → ScheduleTrigger
start st = record st { is_running = true }

unfoldable pub stop : ScheduleTrigger → ScheduleTrigger
stop st = record st { is_running = false }

-- Clear
unfoldable pub clear : ScheduleTrigger → ScheduleTrigger
unfolding new_schedule_trigger
clear st = new_schedule_trigger
