-- ===== src/Dags/Tests.antt =====
-- The script on the two DAGs of the repository, and on a daily DAG that has lost an edge.
use batch_api_snowflake.Base.{
  ◌≡◌, refl, String, Bool, true, none, some, [], ◌∷◌, str_eq, String-discrete, not,
}
use batch_api_snowflake.Dags.{DagBag, exit_code, problems, dag_is_missing}
use batch_api_snowflake.Dags.Context.{RenderContext, render_context}
use batch_api_snowflake.Daily.Graph.{weather_batch_daily}
use batch_api_snowflake.Backfill.Graph.{weather_backfill}

abbrev both : DagBag
both = record {
  import_errors = [];
  dags = ("weather_backfill", weather_backfill) ∷ ("weather_batch_daily", weather_batch_daily) ∷ [];
}

-- Jinja, where it renders everything, and where it fails on one template of every task.
abbrev all_render : String → RenderContext → String → Bool
all_render dag_id context s = true

abbrev no_run_id : String → RenderContext → String → Bool
no_run_id dag_id context s = not (str_eq s "{{ run_id }}")

both_pass : exit_code all_render (some both) ≡ 0
unfolding exit_code String-discrete
both_pass = refl

one_fails : exit_code no_run_id (some both) ≡ 1
unfolding exit_code String-discrete
one_fails = refl

no_folder : exit_code all_render none ≡ 2
unfolding exit_code
no_folder = refl

only_backfill :
    problems all_render (record both { dags = ("weather_backfill", weather_backfill) ∷ [] })
    ≡ dag_is_missing "weather_batch_daily" ("weather_backfill" ∷ []) ∷ []
unfolding problems String-discrete
only_backfill = refl

-- What `{{ var.value.snowflake_user }}`, the database of `DBT_ENV` and the window of the backfill
-- render to.
context_examples :
    (render_context.value.attribute "snowflake_user" ≡ "<snowflake_user>")
    × (render_context.value.get "snowflake_database" (some "WEATHER") ≡ "WEATHER")
    × (render_context.json.get "pool" none ≡ "<pool>")
    × (render_context.xcom_pull "restatement_window_days" ≡ 7)
unfolding render_context
context_examples = (refl, refl, refl, refl)
