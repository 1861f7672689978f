-- ===== src/Alerting/Tests.antt =====
-- A retry and then a failure of one task, with a request that fails.
use batch_api_snowflake.Base.{
  ◌≡◌, refl, ◌++◌, String, Bool, false, not, some, pos, List, [], ◌∷◌, str_eq, String-discrete,
}
use batch_api_snowflake.Base.Dict.{Dict, lookup}
use batch_api_snowflake.Errors.{ok, err, value_error}
use batch_api_snowflake.Alerting.{
  url_error, Attempt, Outbox, Context, page_webhook_env, notify_webhook_env, page_on_failure,
  notify_on_retry, set_url,
}
use batch_api_snowflake.Alerting.{failure_payload, retry_payload}
use batch_api_snowflake.Alerting.Routing.{
  Event, task_failed, task_retried, callbacks, arriving, messages, callbacks-messages,
}

abbrev is_url : String → Bool
is_url s = not (str_eq s "hooks")

abbrev environ : Dict String String
environ =
    (page_webhook_env, "https://hooks/page") ∷ (notify_webhook_env, "https://hooks/notify") ∷ []

abbrev context : Context
context = record {
  dag_id = some "weather_batch_daily";
  task_instance =
      some (record { task_id = "ingest.ingest_city"; try_number = pos 4; log_url = "http://logs" });
  run_id = some "scheduled";
  logical_date = "2026-08-22T05:00:00+00:00";
  exception = some "429";
}

abbrev lost : Attempt
lost = record { arrives = false; raised = some url_error }

abbrev outbox : Outbox
outbox = record { sent = []; attempts = lost ∷ [] }

abbrev events : List Event
events = task_retried context ∷ task_failed context ∷ []

paged :
    callbacks is_url environ events outbox
    ≡ (ok tt, record { sent = ("https://hooks/page", failure_payload context) ∷ []; attempts = [] })
unfolding page_on_failure notify_on_retry String-discrete failure_payload retry_payload
paged = refl

-- A URL that urllib makes no request of is an exception of the callback.
malformed_url :
    (page_on_failure is_url ((page_webhook_env, "hooks") ∷ []) context outbox).0 ≡ err value_error
unfolding page_on_failure String-discrete
malformed_url = refl

callbacks-messages_example :
    let (result, o') = callbacks is_url environ events outbox in
    (result ≡ ok tt) × (o'.sent ≡ [] ++ arriving (lost ∷ []) (messages environ events))
unfolding String-discrete set_url lookup
callbacks-messages_example = callbacks-messages is_url environ events outbox refl refl (tt, tt)
