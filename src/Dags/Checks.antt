-- ===== src/Dags/Checks.antt =====
-- What the exit code of `scripts/validate_dags.py` says of the DAGs.
use Prim.Native.String
use batch_api_snowflake.Dags.Context.{RenderContext, render_context}
use batch_api_snowflake.Base.{
  ◌≡◌, String, Bool, true, Option, some, List, [], contains, String-discrete, All,
}
use batch_api_snowflake.Base.Dict.{Dict, lookup}
use batch_api_snowflake.Values.{Value, text}
use batch_api_snowflake.Dags.{
  DagTask, Dag, DagBag, Edge, task_ids, get_task, targets, expected_dags, expected_edges,
}

-- A DAG that is there with all of its expected tasks.
abbrev pub HasTasks : Dict String Dag → String × List String → Type 0
HasTasks dags (dag_id, expected) =
    (dag : Dag) × (lookup String-discrete dag_id dags ≡ some dag)
    × All (λ t. contains String-discrete (task_ids dag) t ≡ true) expected

-- A task that is there, with an edge to another.
abbrev pub LeadsTo : Option DagTask → String → Type 0
LeadsTo o downstream =
    (t : DagTask) × (o ≡ some t)
    × (contains String-discrete t.downstream_task_ids downstream ≡ true)

-- An edge that its DAG has, if the DAG is there.
abbrev pub HasEdge : Dict String Dag → Edge → Type 0
HasEdge dags (dag_id, upstream, downstream) =
    (dag : Dag)
    → lookup String-discrete dag_id dags ≡ some dag
    → LeadsTo (get_task upstream dag) downstream

abbrev pub RendersValue : (String → RenderContext → String → Bool) → String → Value → Type 0
RendersValue renders dag_id (text s) = renders dag_id render_context s ≡ true
RendersValue renders dag_id v = Unit

-- All templates of a DAG render.
abbrev pub RendersAll : (String → RenderContext → String → Bool) → String × Dag → Type 0
RendersAll renders (dag_id, dag) =
    All (λ t. All (λ e. RendersValue renders dag_id e.1) (targets t)) dag

-- What the script is there to check.
abbrev pub IsValid : (String → RenderContext → String → Bool) → DagBag → Type 0
IsValid renders bag =
    (bag.import_errors ≡ [])
    × All (HasTasks bag.dags) expected_dags
    × All (HasEdge bag.dags) expected_edges
    × All (RendersAll renders) bag.dags
