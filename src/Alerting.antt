-- ===== src/Alerting.antt =====
-- airflow/dags/alerting.py: the callbacks that Airflow makes for the DAGs. Whether urllib makes a
-- request of a URL, and what comes of each request, are parameters. What a callback prints is left
-- out, and a context is what the callbacks read of it.
pub mod Routing
mod Tests
use Prim.Native.String
use batch_api_snowflake.Base.{
  ℕ, ℤ, String, ◌<>◌, Bool, true, false, Option, none, some, List, [], ◌∷◌, ◌++◌, String-discrete,
  if◌then◌else◌,
}
use batch_api_snowflake.Base.Dict.{Dict, lookup}
use batch_api_snowflake.Errors.{Error, Result, ok, err, value_error}
use batch_api_snowflake.Exec.{Exec, pure, raise}
use batch_api_snowflake.Values.{Value, null, integer, text}

-- `PAGE_WEBHOOK_ENV`, `NOTIFY_WEBHOOK_ENV` and `RUNBOOK_URL`
abbrev pub page_webhook_env : String
page_webhook_env = "ALERT_PAGE_WEBHOOK_URL"

abbrev pub notify_webhook_env : String
notify_webhook_env = "ALERT_NOTIFY_WEBHOOK_URL"

abbrev runbook_url : String
runbook_url = "https://github.com/JanIzmer/batch-api-snowflake/blob/main/docs/runbook.md"

abbrev pub Payload : Type 0
Payload = Dict String Value

-- The exceptions of a request: `URLError` (HTTPError is one), `TimeoutError`, or another one.
pub data Failure : Type 0 where
  url_error timeout_error : Failure
  other_error : Error → Failure

-- What comes of a request: whether the message arrives, and the exception that is raised, if any.
pub record Attempt : Type 0 where
  pub arrives : Bool
  pub raised : Option Failure

-- The messages that have arrived, the last one at the end, and what comes of the requests to come;
-- after these every message arrives.
pub record Outbox : Type 0 where
  pub sent : List (String × Payload)
  pub attempts : List Attempt

unfoldable pub after_attempt : Attempt → String × Payload → Exec Outbox (Unit {0})
after_attempt a m o =
    let o' = record o { sent = if a.arrives then o.sent ++ m ∷ [] else o.sent } in
    elim a.raised [ some (other_error e) ↦ (err e, o') | _ ↦ (ok tt, o') ]

-- One request, and the `except` around it.
unfoldable pub request : List Attempt → String × Payload → Exec Outbox (Unit {0})
unfolding after_attempt
request [] m o = (ok tt, record o { sent = o.sent ++ m ∷ [] })
request (a ∷ attempts) m o = after_attempt a m (record o { attempts = attempts })

-- The URL of a webhook, unless it is not set or empty.
unfoldable pub set_url : Option String → Option String
set_url none = none
set_url (some String.[]) = none
set_url (some url) = some url

pub record TaskInstance : Type 0 where
  pub task_id : String
  pub try_number : ℤ
  pub log_url : String

-- The entries of a context; `logical_date` is the text of it or of `execution_date`, and
-- `exception` the text of the exception.
pub record Context : Type 0 where
  pub dag_id : Option String
  pub task_instance : Option TaskInstance
  pub run_id : Option String
  pub logical_date : String
  pub exception : Option String

or_unknown : Option String → String
or_unknown none = "unknown"
or_unknown (some s) = s

text_or_null : Option String → Value
text_or_null none = null
text_or_null (some s) = text s

task_of : Option TaskInstance → String
task_of none = "unknown"
task_of (some t) = t.task_id

try_number_of : Option TaskInstance → Value
try_number_of none = null
try_number_of (some t) = integer t.try_number

log_url_of : Option TaskInstance → Value
log_url_of none = null
log_url_of (some t) = text t.log_url

-- `_context_fields`
unfoldable pub context_fields : Context → Payload
unfolding or_unknown text_or_null task_of try_number_of log_url_of
context_fields c =
    ("dag_id", text (or_unknown c.dag_id))
    ∷ ("task_id", text (task_of c.task_instance))
    ∷ ("run_id", text_or_null c.run_id)
    ∷ ("logical_date", text c.logical_date)
    ∷ ("try_number", try_number_of c.task_instance)
    ∷ ("log_url", log_url_of c.task_instance)
    ∷ []

cut_error : Option String → String
cut_error none = "unknown"
cut_error (some s) = String.slice s 0 1000

-- The payloads of the four callbacks.
unfoldable pub failure_payload : Context → Payload
unfolding context_fields cut_error or_unknown task_of
failure_payload c =
    ("severity", text "page")
    ∷ (
      "title",
      text (
          "[weather] " <> (or_unknown c.dag_id <> ("." <> (task_of c.task_instance <> " failed")))),
    )
    ∷ ("error", text (cut_error c.exception))
    ∷ ("runbook", text runbook_url)
    ∷ context_fields c

unfoldable pub retry_payload : Context → Payload
unfolding context_fields or_unknown task_of
retry_payload c =
    ("severity", text "info")
    ∷ (
      "title",
      text ("[weather] retrying " <> (or_unknown c.dag_id <> ("." <> task_of c.task_instance))),
    )
    ∷ context_fields c

unfoldable pub sla_payload : Option String → String → String → Payload
unfolding or_unknown
sla_payload dag_id task_list blocking_task_list =
    ("severity", text "warning")
    ∷ ("title", text ("[weather] SLA missed in " <> or_unknown dag_id))
    ∷ ("late_tasks", text task_list)
    ∷ ("blocking_tasks", text blocking_task_list)
    ∷ ("runbook", text runbook_url)
    ∷ []

unfoldable pub dag_failure_payload : Context → Payload
unfolding context_fields or_unknown
dag_failure_payload c =
    ("severity", text "page")
    ∷ ("title", text ("[weather] dag run failed: " <> or_unknown c.dag_id))
    ∷ ("runbook", text runbook_url)
    ∷ context_fields c

module _ (is_url : String → Bool) (environ : Dict String String) where
  -- `_post` with the URL, if it is set: the Request is built outside of the `try`.
  unfoldable pub post_to : Option String → Payload → Exec Outbox (Unit {0})
  unfolding request
  post_to none payload = pure tt
  post_to (some url) payload =
      if is_url url then (λ o. request o.attempts (url, payload) o) else raise value_error

  -- `_post`
  unfoldable pub post : String → Payload → Exec Outbox (Unit {0})
  unfolding post_to set_url lookup
  post webhook_env payload = post_to (set_url (lookup String-discrete webhook_env environ)) payload

  unfoldable pub page_on_failure : Context → Exec Outbox (Unit {0})
  unfolding post failure_payload
  page_on_failure c = post page_webhook_env (failure_payload c)

  unfoldable pub notify_on_retry : Context → Exec Outbox (Unit {0})
  unfolding post retry_payload
  notify_on_retry c = post notify_webhook_env (retry_payload c)

  unfoldable pub notify_on_sla_miss : Option String → String → String → Exec Outbox (Unit {0})
  unfolding post sla_payload
  notify_on_sla_miss dag_id task_list blocking_task_list =
      post notify_webhook_env (sla_payload dag_id task_list blocking_task_list)

  unfoldable pub page_on_dag_failure : Context → Exec Outbox (Unit {0})
  unfolding post dag_failure_payload
  page_on_dag_failure c = post page_webhook_env (dag_failure_payload c)
