-- ===== src/Lib.antt =====
-- The weather batch pipeline: each hour of weather of a few cities is fetched from an HTTP API by
-- the day, validated against a data contract, landed as Parquet files and merged into Snowflake.
--
-- Parts. `src/pipeline/run.py` loops over the days and the cities. For each pair it fetches a
-- payload (`src/pipeline/api/client.py`), asks the audit table whether this payload is loaded
-- already (`src/pipeline/warehouse/loader.py`), flattens the payload to observations
-- (`src/pipeline/models.py`), puts them through the quality gate (`src/pipeline/quality.py`, by the
-- rules of `src/pipeline/contracts.py`), writes the accepted ones to the landing zone
-- (`src/pipeline/landing.py`), and loads that file with a MERGE
-- (`src/pipeline/warehouse/ddl/003_merge.sql`).
--
-- Around it stand the commands of `src/pipeline/cli.py`, two DAGs of Airflow (`airflow/dags/`) whose
-- tasks call `run` for one city and one day, the callbacks that report their failures, a script that
-- checks the DAGs (`scripts/validate_dags.py`), and the scripts of DDL that set the tables up.
--
-- Files.
--   Base        shared names and lemmas: tests, lists, integers, texts, equality, dicts
--   Errors      the exceptions, and `Result` for code that may raise
--   Exec        code that changes a state and may raise: the state comes back beside the error
--   Values      the dynamic values of Python: JSON values, floats, datetimes, rows
--   Calendar    dates as ordinals, and `isoformat`
--   Platform    the libraries that are called (SHA-256, json.dumps, fromisoformat, pydantic): a
--               record of functions that the definitions take as a parameter
--   Contract    contracts.py: FieldSpec.violations, Contract.validate_row, split_valid;
--               Contract/Loading has load_contract, on what the YAML parser gives for a file
--   Models      models.py: City, WeatherObservation, batch_id, payload_hash, flatten_hourly
--   Client      client.py: the request, _get_once, _get, fetch_hourly; the server is a function of
--               the number of the request and of the request
--   Config      config.py: Settings, get_settings
--   Disk        the file system, as a dict from paths to files
--   Quality     quality.py: check_batch, _write_quarantine
--   Landing     landing.py: write_batch, read_landed_file, existing_payload_hash, clear_partition,
--               cleanup_temp_files; Landing/Schema has SCHEMA; Landing/Atomic has a step relation
--               for concurrent tasks; Landing/Isolation is about the files of other partitions
--   Warehouse/Merge    003_merge.sql, as a function of the table and the staged rows
--   Warehouse/Session  the driver: the tables as committed and as the session sees them, the
--                      stage, and a list of failures to come, one entry for each call
--   Warehouse/Loader   loader.py: load_batch, write_audit, already_loaded
--   Run         run.py: date_range, ingest_day, run; Run/Again is about a second run over a window,
--               Run/Unique about the keys of the table, and Run/Audit about the rows of the audit
--   Catalogue   catalogue.py: load_cities; Catalogue/Cities has the rows and the constraints of City
--   Ddl         warehouse/connection.py: split_statements; Ddl/Apply has apply_ddl, on any driver
--   Cli         cli.py: the dates and the exit codes of `ingest`; Cli/Commands has the commands
--   Daily       airflow/dags/weather_batch_daily.py: target_date, preflight, ingest_city, report;
--               Daily/Graph has the tasks, the edges and the templates
--   Backfill    airflow/dags/weather_backfill.py: plan, ingest_unit, restatement_window_days,
--               verify; Backfill/Graph has the tasks, the edges and the templates, and
--               Backfill/Units the execution of units one after the other
--   Alerting    airflow/dags/alerting.py: _post and the callbacks
--   Dags        scripts/validate_dags.py: main, on what a DagBag gives, and render_context
--   Fixtures    concrete data for the tests, which stand in a module Tests of each part
--
-- Bounds. Python's integers are unbounded; a date is an ordinal, and `sub_days` raises outside of
-- years 1 to 9999. A float is an exact multiple of 2^-1074 or special, and is only compared.
-- `date_range` runs on the number of days of its window as fuel, of which each day of the window
-- takes one. The retry loop is structural on the attempts that are left.
--
-- Not modelled: logging, typer, the HTTP transport and its waits, Parquet's encoding, the opening
-- of cursors, Airflow's scheduler, its retries and the options of its operators, and the dbt
-- project, which runs inside Snowflake. The messages of exceptions are the values that they are
-- formatted from. A run takes the contract and the cities as they are loaded, with the fields of the
-- contract as what they are declared to be. One reading of the clock serves a whole run. Closing a
-- cursor or a connection is taken never to fail.
pub mod Base
pub mod Errors
pub mod Exec
pub mod Values
pub mod Calendar
pub mod Platform
pub mod Contract
pub mod Models
pub mod Client
pub mod Config
pub mod Disk
pub mod Quality
pub mod Warehouse
pub mod Landing
pub mod Catalogue
pub mod Run
pub mod Cli
pub mod Daily
pub mod Dags
pub mod Ddl
pub mod Alerting
pub mod Backfill
pub mod Fixtures
