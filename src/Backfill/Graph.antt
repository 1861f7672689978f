-- ===== src/Backfill/Graph.antt =====
-- The tasks of the backfill DAG, their edges and their templates, as scripts/validate_dags.py sees
-- them. A task's argument that is another task's result makes an edge, and so does `>>`.
use batch_api_snowflake.Base.{none, some, [], ◌∷◌}
use batch_api_snowflake.Values.{text}
use batch_api_snowflake.Dags.{DagTask, Dag}

abbrev rebuild_marts : DagTask
rebuild_marts = record {
  task_id = "rebuild_marts";
  downstream_task_ids = "verify" ∷ [];
  bash = some (record {
    bash_command =
        text
          "cd /opt/pipeline/dbt && dbt build --target prod --vars '{\"restatement_window_days\": {{ ti.xcom_pull(task_ids='restatement_window_days') }}}'";
    env = some (
        ("DBT_PROFILES_DIR", text "/opt/pipeline/dbt")
        ∷ ("AIRFLOW_CTX_DAG_RUN_ID", text "{{ run_id }}")
        ∷ []);
  });
}

abbrev pub weather_backfill : Dag
weather_backfill =
    (record { task_id = "plan"; downstream_task_ids = "ingest_unit" ∷ []; bash = none })
    ∷ (record {
      task_id = "ingest_unit";
      downstream_task_ids = "rebuild_marts" ∷ "verify" ∷ [];
      bash = none;
    })
    ∷ (record {
      task_id = "restatement_window_days";
      downstream_task_ids = "rebuild_marts" ∷ [];
      bash = none;
    })
    ∷ rebuild_marts
    ∷ (record { task_id = "verify"; downstream_task_ids = []; bash = none })
    ∷ []
