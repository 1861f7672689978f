-- ===== src/Dags.antt =====
-- scripts/validate_dags.py: the checks of the DAG files. What Airflow's DagBag gives for a folder,
-- and whether Jinja renders a template in the environment of a DAG and a context, are parameters.
pub mod Context
pub mod Checks
mod Tests
use Prim.Native.Nat.{Ordering}
use Prim.Native.String
use batch_api_snowflake.Base.{
  ℕ, String, ◌<>◌, Bool, true, false, not, Option, none, some, List, [], ◌∷◌, ◌++◌, map, keep,
  flat_map, is_empty, contains, String-discrete, str_eq, length, if◌then◌else◌,
}
use batch_api_snowflake.Base.Dict.{Dict, keys, lookup}
use batch_api_snowflake.Values.{Value, text}
use batch_api_snowflake.Contract.{sorted}
use batch_api_snowflake.Dags.Context.{RenderContext, render_context}

-- The templates of a BashOperator: `bash_command` and `env`.
pub record BashFields : Type 0 where
  pub bash_command : Value
  pub env : Option (Dict String Value)

-- A task, with its templates if it is a BashOperator.
pub record DagTask : Type 0 where
  pub task_id : String
  pub downstream_task_ids : List String
  pub bash : Option BashFields

abbrev pub Dag : Type 0
Dag = List DagTask

pub record DagBag : Type 0 where
  pub import_errors : Dict String String
  pub dags : Dict String Dag

-- An edge that is asserted: the DAG, the upstream and the downstream task.
abbrev pub Edge : Type 0
Edge = String × String × String

-- `EXPECTED_DAGS`
abbrev pub expected_dags : Dict String (List String)
expected_dags =
    (
      "weather_batch_daily",
      "start" ∷ "target_date" ∷ "preflight" ∷ "ingest.ingest_city" ∷ "transform.dbt_deps"
          ∷ "transform.dbt_seed" ∷ "transform.dbt_source_freshness" ∷ "transform.dbt_run"
          ∷ "transform.dbt_test" ∷ "report" ∷ "finish" ∷ [],
    )
    ∷ (
      "weather_backfill",
      "plan" ∷ "ingest_unit" ∷ "restatement_window_days" ∷ "rebuild_marts" ∷ "verify" ∷ [],
    )
    ∷ []

-- `EXPECTED_EDGES`
abbrev pub expected_edges : List Edge
expected_edges =
    ("weather_batch_daily", "transform.dbt_source_freshness", "transform.dbt_run")
    ∷ ("weather_batch_daily", "transform.dbt_run", "transform.dbt_test")
    ∷ ("weather_backfill", "ingest_unit", "rebuild_marts")
    ∷ ("weather_backfill", "restatement_window_days", "rebuild_marts")
    ∷ []

-- The problems, by the values that their messages are formatted from.
pub data Problem : Type 0 where
  import_error : String → String → Problem
  dag_is_missing : String → List String → Problem
  missing_tasks : String → List String → Problem
  no_task : String → String → Problem
  edge_is_missing : String → String → String → Problem
  failed_to_render : String → String → String → Problem

abbrev pub task_ids : Dag → List String
task_ids dag = map (λ t. t.task_id) dag

-- `dag.get_task(task_id)`, where `none` is an exception.
unfoldable pub get_task : String → Dag → Option DagTask
get_task task_id [] = none
get_task task_id (t ∷ dag) = if str_eq task_id t.task_id then some t else get_task task_id dag

import_problems : Dict String String → List Problem
import_problems errors = map (λ e. import_error e.0 e.1) errors

-- The tasks that are expected and not there.
abbrev pub missing_from : Dag → List String → List String
missing_from dag expected = keep (λ t. not (contains String-discrete (task_ids dag) t)) expected

-- What the loop over the expected DAGs finds for one of them, if the bag has it.
unfoldable pub dag_problems : List String → Option Dag → String × List String → List Problem
unfolding sorted
dag_problems dag_ids none (dag_id, expected) = dag_is_missing dag_id (sorted dag_ids) ∷ []
dag_problems dag_ids (some dag) (dag_id, expected) =
    let missing = missing_from dag expected in
    if is_empty missing then [] else missing_tasks dag_id (sorted missing) ∷ []

missing_edge : Option DagTask → Edge → List Problem
missing_edge none (dag_id, upstream, downstream) = no_task dag_id upstream ∷ []
missing_edge (some t) (dag_id, upstream, downstream) =
    if contains String-discrete t.downstream_task_ids downstream
    then []
    else edge_is_missing dag_id upstream downstream ∷ []

-- What the loop over the expected edges finds for one of them, in its DAG if the bag has it.
unfoldable pub edge_problems : Option Dag → Edge → List Problem
unfolding get_task missing_edge
edge_problems none edge = []
edge_problems (some dag) edge = missing_edge (get_task edge.1 dag) edge

env_targets : Option (Dict String Value) → List (String × Value)
env_targets none = []
env_targets (some env) = map (λ e. ("env[" <> (e.0 <> "]"), e.1)) env

-- The labelled templates of a task.
unfoldable pub targets : DagTask → List (String × Value)
unfolding env_targets
targets t = elim t.bash [
  | none ↦ []
  | some b ↦ ("bash_command", b.bash_command) ∷ env_targets b.env
]

insert_dag : String × Dag → Dict String Dag → Dict String Dag
insert_dag d [] = d ∷ []
insert_dag d (e ∷ es) =
    let rest = insert_dag d es in
    elim (String.compare d.0 e.0) [ Ordering.gt ↦ e ∷ rest | _ ↦ d ∷ e ∷ es ]

-- `sorted(bag.dags.items())`, whose keys are distinct.
unfoldable pub sorted_dags : Dict String Dag → Dict String Dag
unfolding insert_dag
sorted_dags [] = []
sorted_dags (d ∷ ds) = insert_dag d (sorted_dags ds)

module _ (renders : String → RenderContext → String → Bool) where
  -- What the innermost loop finds for one template; a value that is no text is passed over.
  unfoldable pub target_problems : String → String → String × Value → List Problem
  target_problems dag_id task_id (label, text s) =
      if renders dag_id render_context s then [] else failed_to_render dag_id task_id label ∷ []
  target_problems dag_id task_id (label, v) = []

  unfoldable pub task_problems : String → DagTask → List Problem
  unfolding target_problems targets
  task_problems dag_id t = flat_map (target_problems dag_id t.task_id) (targets t)

  unfoldable pub render_problems : String × Dag → List Problem
  unfolding task_problems
  render_problems (dag_id, dag) = flat_map (task_problems dag_id) dag

  -- The list `problems` at the end of `main`.
  unfoldable pub problems : DagBag → List Problem
  unfolding import_problems dag_problems edge_problems sorted_dags render_problems lookup
  problems bag =
      import_problems bag.import_errors
      ++ flat_map (λ d. dag_problems (keys bag.dags) (lookup String-discrete d.0 bag.dags) d)
          expected_dags
      ++ flat_map (λ e. edge_problems (lookup String-discrete e.0 bag.dags) e) expected_edges
      ++ flat_map render_problems (sorted_dags bag.dags)

  -- `main`
  unfoldable pub main : DagBag → ℕ
  unfolding problems
  main bag = if is_empty (problems bag) then 0 else 1

  -- The script: the exit code 2 where there is no such folder.
  unfoldable pub exit_code : Option DagBag → ℕ
  unfolding main
  exit_code none = 2
  exit_code (some bag) = main bag
