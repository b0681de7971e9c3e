-- ===== src/TaskManager/Laws.antt =====
-- What a job master makes of a task in its own process, and how often a result is published.
use flowgent.Prelude.{
  ltb, none, ◌≤◌, ap, true-false, none-some, ℕ, zero, suc, ◌+◌, ◌<◌, String, false, some, ◌≡◌, ◌≢◌,
  ◌⊎◌, inl, inr, refl, sym, ◌∙◌, Bool-cases, if◌then◌else◌, Option-cases, ◌==◌, eq_iff, arith,
}
use flowgent.Prelude.Dict.{put}
use flowgent.Dag.{ExecutionPlan, TaskResult, TaskType, success, failed}
use flowgent.JobMaster.Graph.{JobMaster, fail}
use flowgent.JobMaster.Execute.{settle, succeed}
use flowgent.TaskManager.{Executor, Ran, run_error, ran, Task, execute_plan}
use flowgent.TaskManager.Standalone.{schedule, reply_of}
use flowgent.TaskManager.Worker.{ExecResult, published, cancelled, given_up, Queue, emit}

Ran-cases : (a : Ran) → ((e : String) × (a ≡ run_error e)) ⊎ ((r : TaskResult) × (a ≡ ran r))
Ran-cases (run_error e) = inl (e, refl)
Ran-cases (ran r) = inr (r, refl)

-- The task of a plan whose execution gave a result: failed if there is an error in it.
pub record IsSaved (plan : ExecutionPlan) (r : TaskResult) (time : ℕ) (t : Task) : Type 0 where
  pub of_run : t.agent_flow_run_id ≡ plan.agent_flow_run_id
  pub of_node : t.node_id ≡ plan.node_id
  pub of_plan : t.exec_id ≡ plan.plan_id
  pub with_input : t.input ≡ plan.input
  pub with_output : t.output ≡ r.output
  pub with_error : t.error ≡ r.error
  pub succeeded : r.error ≡ "" → t.status ≡ success
  pub failing : r.error ≢ "" → t.status ≡ failed
  pub finished : t.finished_at ≡ some time

module _ {S : Type 0} (router : Executor S) (save : Task → S → S) (now : S → ℕ) (full : ℕ → String)
    (pool_size in_use : ℕ) (plan : ExecutionPlan) (n : String) (ty : TaskType) (jm : JobMaster)
    (s : S) where
  -- What a node is settled by, in which state of the store.
  pub data IsSettled : S → JobMaster → Type 0 where
    no_slot :
        pool_size ≤ in_use
        → IsSettled s (fail (record jm { node_errors = put jm.node_errors n (full pool_size) }) n)
    errs :
        (e : String)
        → in_use < pool_size
        → (router plan s).1 ≡ run_error e
        → e ≢ ""
        → IsSettled (router plan s).0 (fail (record jm { node_errors = put jm.node_errors n e }) n)
    errs_silently :
        in_use < pool_size
        → (router plan s).1 ≡ run_error ""
        → IsSettled (router plan s).0 (succeed n ty none jm)
    returns :
        (r : TaskResult) (t : Task)
        → in_use < pool_size
        → (router plan s).1 ≡ ran r
        → IsSaved plan r (now (router plan s).0) t
        → IsSettled (save t (router plan s).0) (succeed n ty r.output jm)

  saved : TaskResult → Task
  saved r = record {
    agent_flow_run_id = plan.agent_flow_run_id;
    node_id = plan.node_id;
    status = if r.error == "" then success else failed;
    exec_id = plan.plan_id;
    input = plan.input;
    output = r.output;
    error = r.error;
    finished_at = some (now (router plan s).0);
  }

  saved-IsSaved : (r : TaskResult) → IsSaved plan r (now (router plan s).0) (saved r)
  unfolding saved
  saved-IsSaved r = record {
    of_run = refl;
    of_node = refl;
    of_plan = refl;
    with_input = refl;
    with_output = refl;
    with_error = refl;
    succeeded = λ e. rw ((eq_iff r.error "").1 e) refl;
    failing = λ wrong. elim (Bool-cases (r.error == "")) [
      | inl e ↦ absurd (wrong ((eq_iff r.error "").0 e))
      | inr e ↦ rw e refl
    ];
    finished = refl;
  }

  settles :
      IsSettled
        (schedule router save now full pool_size in_use plan s).0
        (settle n ty (schedule router save now full pool_size in_use plan s).1 jm)
  unfolding execute_plan schedule reply_of settle saved
  settles = elim (Bool-cases (ltb in_use pool_size)) [
    | inr e ↦ rw (schedule, e) (no_slot (ground (arith, e)))
    | inl e ↦
        let free : in_use < pool_size = ground (arith, e) in
        elim (Ran-cases (router plan s).1) [
          | inr (r, q) ↦
              rw (schedule, e, execute_plan, q) (returns r (saved r) free q (saved-IsSaved r))
          | inl (x, q) ↦ elim (Bool-cases (x == "")) [
            | inl y ↦
                rw (schedule, e, execute_plan, q, y, settle)
                  (errs_silently free (q ∙ ap run_error ((eq_iff x "").0 y)))
            | inr y ↦
                rw (schedule, e, execute_plan, q, y, settle)
                  (errs x free q (λ z. true-false (sym ((eq_iff x "").1 z) ∙ y)))
          ]
        ]
  ]

-- Over the standalone resource manager: without a free slot the job master fails the node with the
-- text of that and the store is as it was; an error of the executor fails the node with its text, or
-- completes it without an output if the text is empty, and nothing is saved; and a result completes
-- the node with its output, whether or not there is an error in it, behind one save of the plan's
-- task, which has the result's output and error and is failed exactly if there is an error.
pub schedule-IsSettled :
    {S : Type 0} (router : Executor S) (save : Task → S → S) (now : S → ℕ) (full : ℕ → String)
    (pool_size in_use : ℕ) (plan : ExecutionPlan) (n : String) (ty : TaskType) (jm : JobMaster)
    (s : S)
    → IsSettled router save now full pool_size in_use plan n ty jm s
        (schedule router save now full pool_size in_use plan s).0
        (settle n ty (schedule router save now full pool_size in_use plan s).1 jm)
schedule-IsSettled router save now full pool_size in_use plan n ty jm s =
    settles router save now full pool_size in_use plan n ty jm s

published_given_up : published ≡ given_up → ⊥
published_given_up h = cc

cancelled_given_up : cancelled ≡ given_up → ⊥
cancelled_given_up h = cc

module _ {S : Type 0} (queue : Queue S) (topic : String) (msg : ExecResult) where
  open queue use {publish, wait}

  -- So many attempts in a row that fail, each with a wait behind it that the context outlives.
  pub data AllFail : ℕ → ℕ → S → Type 0 where
    none_left : {attempt : ℕ} {s : S} → AllFail zero attempt s
    one_more :
        {n attempt : ℕ} {s : S} {e : String}
        → (publish topic msg s).1 ≡ some e
        → (wait attempt (publish topic msg s).0).1 ≡ false
        → AllFail n (attempt + 1) (wait attempt (publish topic msg s).0).0
        → AllFail (suc n) attempt s

  AllFail-inv :
      {n attempt : ℕ} {s : S}
      → AllFail (suc n) attempt s
      → (e : String) × ((publish topic msg s).1 ≡ some e)
        × ((wait attempt (publish topic msg s).0).1 ≡ false)
        × AllFail n (attempt + 1) (wait attempt (publish topic msg s).0).0
  AllFail-inv (one_more {e = e} q w rest) = (e, q, w, rest)

  -- From any state the worker gives a result up exactly if each attempt that is left fails to
  -- publish it and the context outlives the wait behind each.
  pub emit_iff :
      (left attempt : ℕ) (s : S)
      → ((emit queue left attempt topic msg s).1 ≡ given_up → AllFail left attempt s)
        × (AllFail left attempt s → (emit queue left attempt topic msg s).1 ≡ given_up)
  unfolding emit
  emit_iff zero attempt s = ((λ h. none_left), λ h. refl)
  emit_iff (suc left) attempt s = elim (Option-cases (publish topic msg s).1) [
    | inl e ↦ (
      λ h. absurd (published_given_up (rw (emit, e) at h)),
      λ h. let (err, q, w, rest) = AllFail-inv h in absurd (none-some (sym e ∙ q)),
    )
    | inr (err, e) ↦ elim (Bool-cases (wait attempt (publish topic msg s).0).1) [
      | inl w ↦ (
        λ h. absurd (cancelled_given_up (rw (emit, e, w) at h)),
        λ h. let (err', q, v, rest) = AllFail-inv h in absurd (true-false (sym w ∙ v)),
      )
      | inr w ↦
          let (to, from) = emit_iff left (attempt + 1) (wait attempt (publish topic msg s).0).0 in
          (
            λ h. one_more e w (to (rw (emit, e, w) at h)),
            λ h. let (err', q, v, rest) = AllFail-inv h in rw (emit, e, w) (from rest),
          )
    ]
  ]
