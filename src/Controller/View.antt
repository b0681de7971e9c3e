-- ===== src/Controller/View.antt =====
-- What `reconcile` of controller.go reads before it acts: the flows that are defined, and which of them
-- have a run that is not over. The API server is the record `Server`.
use flowgent.Prelude.{
  ℕ, String, Bool, true, false, Option, none, some, List, [], ◌∷◌, ◌==◌, ◌||◌, ltb, is_some,
  if◌then◌else◌,
}
use flowgent.Prelude.Dict.{Dict, get, put}
use flowgent.Value.{Object}
use flowgent.Dag.{Flow, RunStatus, run_pending, run_running, run_paused}
use flowgent.Discovery.{Peer}
use flowgent.Api.Flows.{TriggerInfo}
use flowgent.Controller.Shard.{owns_flow}

-- The fields of FlowVersionInfo that are read.
pub record FlowVersion : Type 0 where
  pub flow_id : String
  pub definition : String

-- The fields of FlowRunInfo that createApplicationRun sets.
pub record ApplicationRun : Type 0 where
  pub id : String
  pub namespace : String
  pub agent_flow_id : String
  pub version : ℕ
  pub status : RunStatus
  pub priority : String
  pub k8s_namespace : String
  pub vars : Object
  pub trigger : TriggerInfo

-- Discovery and the API server; none is an error. `list_runs` gives the number of runs on the first page
-- for a flow and a status. `decode` is json.Unmarshal, `equal_fold` strings.EqualFold, `format` the text
-- of a number. An error of CreateRun is logged.
pub record Server (S : Type 0) : Type 0 where
  pub discover : S → S × Option (List Peer)
  pub list_flows : S → S × Option (List FlowVersion)
  pub list_runs : String → RunStatus → S → S × Option ℕ
  pub get_flow : String → S → S × Option Flow
  pub create_run : String → ApplicationRun → S → S
  pub unix_nano : S → ℕ
  pub decode : String → Option Flow
  pub equal_fold : String → String → Bool
  pub format : ℕ → String

module _ {S : Type 0} (server : Server S) where
  open server use {list_runs, decode, equal_fold}

  -- The body of the loop over the versions.
  unfoldable pub see_version : Dict Flow → FlowVersion → Dict Flow
  see_version seen v = elim (is_some (get seen v.flow_id)) [
    | true ↦ seen
    | false ↦ elim (decode v.definition) [
      | none ↦ seen
      | some spec ↦
          if spec.id == "" || equal_fold spec.kind "skill" then seen else put seen v.flow_id spec
    ]
  ]

  unfoldable pub see_all : Dict Flow → List FlowVersion → Dict Flow
  see_all seen [] = seen
  see_all seen (v ∷ vs) = see_all (see_version seen v) vs

  -- The loop over the statuses: is a page not empty? None is an error.
  unfoldable pub has_run : String → List RunStatus → S → S × Option Bool
  has_run flow_id [] s = (s, some false)
  has_run flow_id (status ∷ statuses) s =
      let (s', page) = list_runs flow_id status s in
      elim page [
        | none ↦ (s', none)
        | some n ↦ elim (ltb 0 n) [ true ↦ (s', some true) | false ↦ has_run flow_id statuses s' ]
      ]

  abbrev pub active_statuses : List RunStatus
  active_statuses = run_pending ∷ run_running ∷ run_paused ∷ []

  -- collectActiveRunFlows
  unfoldable pub collect_active :
      (String → List ℕ) → List Peer → Peer → Dict Flow → Dict Bool → S → S × Dict Bool × Bool
  unfolding has_run
  collect_active bytes peers self [] active s = (s, active, true)
  collect_active bytes peers self ((flow_id, spec) ∷ seen) active s =
      elim (owns_flow bytes peers self flow_id) [
        | false ↦ collect_active bytes peers self seen active s
        | true ↦
            let (s', answer) = has_run flow_id active_statuses s in
            elim answer [
              | none ↦ (s', active, false)
              | some true ↦ collect_active bytes peers self seen (put active flow_id true) s'
              | some false ↦ collect_active bytes peers self seen active s'
            ]
      ]
