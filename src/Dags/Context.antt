-- ===== src/Dags/Context.antt =====
-- scripts/validate_dags.py: render_context, in which the templates of the DAGs are rendered.
use batch_api_snowflake.Base.{ℕ, String, ◌<>◌, Bool, false, Option, none, some, List, []}

-- `_FakeVars`: an attribute reads as its name in brackets, and so does `get` without a default.
unfoldable pub fake_attribute : String → String
fake_attribute name = "<" <> (name <> ">")

unfoldable pub fake_get : String → Option String → String
unfolding fake_attribute
fake_get key none = fake_attribute key
fake_get key (some default) = default

-- What a template reads of Airflow's Variables, from `var.value` and from `var.json`.
pub record FakeVars : Type 0 where
  pub attribute : String → String
  pub get : String → Option String → String

pub record RunParams : Type 0 where
  pub start_date : String
  pub end_date : String
  pub cities : List String
  pub full_refresh : Bool

pub record RenderContext : Type 0 where
  pub params : RunParams
  pub run_id : String
  pub ds : String
  -- `ti.xcom_pull(task_ids=...)`
  pub xcom_pull : String → ℕ
  pub value : FakeVars
  pub json : FakeVars

abbrev fake_vars : FakeVars
fake_vars = record { attribute = fake_attribute; get = fake_get }

-- `render_context`
unfoldable pub render_context : RenderContext
unfolding fake_get
render_context = record {
  params = record {
    start_date = "2026-07-01";
    end_date = "2026-07-31";
    cities = [];
    full_refresh = false;
  };
  run_id = "scheduled__2026-09-10T05:00:00+00:00";
  ds = "2026-09-10";
  xcom_pull = λ task_ids. 7;
  value = fake_vars;
  json = fake_vars;
}
