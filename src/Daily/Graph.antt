-- ===== src/Daily/Graph.antt =====
-- The tasks of the daily DAG, their edges and their templates, as scripts/validate_dags.py sees them.
-- An operator's keyword argument that is another task's result makes an edge, and so does `>>`,
-- which between two groups leads from the last tasks of the first to the first tasks of the second.
use batch_api_snowflake.Base.{String, ◌<>◌, none, some, List, [], ◌∷◌}
use batch_api_snowflake.Base.Dict.{Dict}
use batch_api_snowflake.Values.{Value, text}
use batch_api_snowflake.Dags.{DagTask, Dag}

-- `DBT_ENV`
abbrev pub dbt_env : Dict String Value
dbt_env =
    ("DBT_PROFILES_DIR", text "/opt/pipeline/dbt")
    ∷ ("SNOWFLAKE_ACCOUNT", text "{{ var.value.snowflake_account }}")
    ∷ ("SNOWFLAKE_USER", text "{{ var.value.snowflake_user }}")
    ∷ ("SNOWFLAKE_PASSWORD", text "{{ var.value.snowflake_password }}")
    ∷ ("SNOWFLAKE_DATABASE", text "{{ var.value.get('snowflake_database', 'WEATHER') }}")
    ∷ ("AIRFLOW_CTX_DAG_RUN_ID", text "{{ run_id }}")
    ∷ []

abbrev pub python_task : String → List String → DagTask
python_task task_id downstream = record {
  task_id = task_id;
  downstream_task_ids = downstream;
  bash = none;
}

-- A BashOperator of the group `transform`.
abbrev dbt_task : String → String → List String → DagTask
dbt_task task_id command downstream = record {
  task_id = task_id;
  downstream_task_ids = downstream;
  bash =
      some (record {
        bash_command = text ("cd /opt/pipeline/dbt && " <> command);
        env = some dbt_env;
      });
}

abbrev pub weather_batch_daily : Dag
weather_batch_daily =
    python_task "start" ("target_date" ∷ [])
    ∷ python_task "target_date" ("preflight" ∷ "ingest.ingest_city" ∷ "report" ∷ [])
    ∷ python_task "preflight" ("ingest.ingest_city" ∷ [])
    ∷ python_task "ingest.ingest_city" ("transform.dbt_deps" ∷ "report" ∷ [])
    ∷ dbt_task "transform.dbt_deps" "dbt deps --no-write-json" ("transform.dbt_seed" ∷ [])
    ∷ dbt_task "transform.dbt_seed" "dbt seed --target prod" ("transform.dbt_source_freshness" ∷ [])
    ∷ dbt_task "transform.dbt_source_freshness" "dbt source freshness --target prod"
        ("transform.dbt_run" ∷ [])
    ∷ dbt_task "transform.dbt_run" "dbt build --target prod" ("transform.dbt_test" ∷ [])
    ∷ dbt_task "transform.dbt_test" "dbt test --target prod --store-failures" ("report" ∷ [])
    ∷ python_task "report" ("finish" ∷ [])
    ∷ python_task "finish" []
    ∷ []
