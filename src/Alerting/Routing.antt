-- ===== src/Alerting/Routing.antt =====
-- Where the messages of the callbacks go, over a sequence of events of the DAGs.
use batch_api_snowflake.Base.{
  ◌≡◌, refl, ap, sym, ◌∙◌, String, Bool, true, false, Option, none, some, List, [], ◌∷◌, ◌++◌,
  append-nil, append_assoc, String-discrete, if◌then◌else◌, All,
}
use batch_api_snowflake.Base.Dict.{Dict, lookup}
use batch_api_snowflake.Errors.{ok}
use batch_api_snowflake.Exec.{Exec, pure, ◌>>◌}
use batch_api_snowflake.Alerting.{
  Payload, Failure, url_error, timeout_error, other_error, Attempt, Outbox, Context,
  page_webhook_env, notify_webhook_env,
}
use batch_api_snowflake.Alerting.{
  set_url, request, after_attempt, post_to, post, failure_payload, retry_payload, sla_payload,
  dag_failure_payload, page_on_failure, notify_on_retry, notify_on_sla_miss, page_on_dag_failure,
}

-- What Airflow calls the callbacks for, as the DAGs register them.
pub data Event : Type 0 where
  task_failed task_retried run_failed : Context → Event
  sla_missed : Option String → String → String → Event

-- The exception is one that `_post` catches.
abbrev pub IsCaught : Option Failure → Type 0
IsCaught (some (other_error e)) = ⊥
IsCaught raised = Unit

module _ (is_url : String → Bool) (environ : Dict String String) where
  abbrev pub callback : Event → Exec Outbox (Unit {0})
  callback (task_failed c) = page_on_failure is_url environ c
  callback (task_retried c) = notify_on_retry is_url environ c
  callback (run_failed c) = page_on_dag_failure is_url environ c
  callback (sla_missed dag_id late blocking) =
      notify_on_sla_miss is_url environ dag_id late blocking

  abbrev pub callbacks : List Event → Exec Outbox (Unit {0})
  callbacks [] = pure tt
  callbacks (e ∷ es) = callback e >> callbacks es

-- The channel and the message of an event: failures page, retries and late data notify.
abbrev pub channel : Event → String
channel (task_failed c) = page_webhook_env
channel (run_failed c) = page_webhook_env
channel (task_retried c) = notify_webhook_env
channel (sla_missed dag_id late blocking) = notify_webhook_env

abbrev pub payload : Event → Payload
payload (task_failed c) = failure_payload c
payload (run_failed c) = dag_failure_payload c
payload (task_retried c) = retry_payload c
payload (sla_missed dag_id late blocking) = sla_payload dag_id late blocking

abbrev pub webhook : Dict String String → String → Option String
webhook environ name = set_url (lookup String-discrete name environ)

-- The messages that should be sent: none for an event whose channel has no webhook.
abbrev addressed : Option String → Payload → List (String × Payload)
addressed none m = []
addressed (some url) m = (url, m) ∷ []

abbrev pub messages : Dict String String → List Event → List (String × Payload)
messages environ [] = []
messages environ (e ∷ es) =
    addressed (webhook environ (channel e)) (payload e) ++ messages environ es

-- The messages that arrive, one attempt each.
abbrev pub arriving : List Attempt → List (String × Payload) → List (String × Payload)
arriving attempts [] = []
arriving [] (m ∷ ms) = m ∷ ms
arriving (a ∷ attempts) (m ∷ ms) =
    let rest = arriving attempts ms in if a.arrives then m ∷ rest else rest

-- The webhook, if it is set, is a URL.
abbrev pub IsUsable : (String → Bool) → Option String → Type 0
IsUsable is_url none = Unit
IsUsable is_url (some url) = is_url url ≡ true

abbrev AreCaught : List Attempt → Type 0
AreCaught attempts = All (λ a. IsCaught a.raised) attempts

after_attempt-caught :
    (arrives : Bool) (raised : Option Failure) (m : String × Payload) (o : Outbox)
    → IsCaught raised
    → after_attempt (record { arrives = arrives; raised = raised }) m o
      ≡ (ok tt, record o { sent = if arrives then o.sent ++ m ∷ [] else o.sent })
unfolding after_attempt
after_attempt-caught arrives none m o h = refl
after_attempt-caught arrives (some url_error) m o h = refl
after_attempt-caught arrives (some timeout_error) m o h = refl
after_attempt-caught arrives (some (other_error e)) m o h = absurd h

-- What stays true of a request: the messages that have arrived, and those that will.
arrived_and_arriving :
    (arrives : Bool) (sent : List (String × Payload)) (attempts : List Attempt)
    (m : String × Payload) (rest : List (String × Payload))
    → (if arrives then sent ++ m ∷ [] else sent) ++ arriving attempts rest
      ≡ sent ++ (if arrives then m ∷ arriving attempts rest else arriving attempts rest)
arrived_and_arriving true sent attempts m rest = append_assoc sent (m ∷ []) (arriving attempts rest)
arrived_and_arriving false sent attempts m rest = refl

-- One message of several, where each exception of the attempts to come is caught.
abbrev Settles : Exec Outbox (Unit {0}) → List (String × Payload) → Outbox → Type 0
Settles run ms o =
    (o' : Outbox) × (run o ≡ (ok tt, o'))
    × ((rest : List (String × Payload))
        → o'.sent ++ arriving o'.attempts rest ≡ o.sent ++ arriving o.attempts (ms ++ rest))
    × AreCaught o'.attempts

arriving-nil : (ms : List (String × Payload)) → arriving [] ms ≡ ms
arriving-nil [] = refl
arriving-nil (m ∷ ms) = refl

request-Settles :
    (sent : List (String × Payload)) (attempts : List Attempt) (m : String × Payload)
    → AreCaught attempts
    → Settles (request attempts m) (m ∷ []) (record { sent = sent; attempts = attempts })
unfolding request
request-Settles sent [] m caught = (
  record { sent = sent ++ m ∷ []; attempts = [] },
  refl,
  λ rest. rw (arriving-nil rest) (append_assoc sent (m ∷ []) rest),
  tt,
)
request-Settles sent (a ∷ attempts) m (h, caught) = (
  record { sent = if a.arrives then sent ++ m ∷ [] else sent; attempts = attempts },
  after_attempt-caught a.arrives a.raised m (record { sent = sent; attempts = attempts }) h,
  λ rest. arrived_and_arriving a.arrives sent attempts m rest,
  caught,
)

module _ (is_url : String → Bool) (environ : Dict String String) where
  post_to-Settles :
      (url : Option String) (m : Payload) (o : Outbox)
      → IsUsable is_url url
      → AreCaught o.attempts
      → Settles (post_to is_url environ url m) (addressed url m) o
  unfolding post_to
  post_to-Settles none m o usable caught = (o, refl, λ rest. refl, caught)
  post_to-Settles (some url) m o usable caught =
      rw usable (request-Settles o.sent o.attempts (url, m) caught)

  callback-post :
      (e : Event) → callback is_url environ e ≡ post is_url environ (channel e) (payload e)
  unfolding page_on_failure notify_on_retry notify_on_sla_miss page_on_dag_failure
  callback-post (task_failed c) = refl
  callback-post (task_retried c) = refl
  callback-post (run_failed c) = refl
  callback-post (sla_missed dag_id late blocking) = refl

  IsUsable-channel :
      (e : Event)
      → IsUsable is_url (webhook environ page_webhook_env)
      → IsUsable is_url (webhook environ notify_webhook_env)
      → IsUsable is_url (webhook environ (channel e))
  IsUsable-channel (task_failed c) page notify = page
  IsUsable-channel (task_retried c) page notify = notify
  IsUsable-channel (run_failed c) page notify = page
  IsUsable-channel (sla_missed dag_id late blocking) page notify = notify

  callback-Settles :
      (e : Event) (o : Outbox)
      → IsUsable is_url (webhook environ page_webhook_env)
      → IsUsable is_url (webhook environ notify_webhook_env)
      → AreCaught o.attempts
      → Settles (callback is_url environ e) (addressed (webhook environ (channel e)) (payload e)) o
  unfolding post
  callback-Settles e o page notify caught = rw (callback-post e) (
      post_to-Settles (webhook environ (channel e)) (payload e) o (IsUsable-channel e page notify)
        caught)

  callbacks-Settles :
      (es : List Event) (o : Outbox)
      → IsUsable is_url (webhook environ page_webhook_env)
      → IsUsable is_url (webhook environ notify_webhook_env)
      → AreCaught o.attempts
      → Settles (callbacks is_url environ es) (messages environ es) o
  callbacks-Settles [] o page notify caught = (o, refl, λ rest. refl, caught)
  callbacks-Settles (e ∷ es) o page notify caught =
      let (o', run, arrived, caught') = callback-Settles e o page notify caught in
      let (o'', runs, arrived', caught'') = callbacks-Settles es o' page notify caught' in
      (
        o'',
        rw (run, runs) refl,
        λ rest.
            arrived' rest
            ∙ arrived (messages environ es ++ rest)
            ∙ ap (λ ms. o.sent ++ arriving o.attempts ms)
                (sym (
                  append_assoc (addressed (webhook environ (channel e)) (payload e))
                    (messages environ es) rest)),
        caught'',
      )

  -- Over any sequence of events no callback raises, if each webhook that is set is a URL and each
  -- request that fails does so with URLError or TimeoutError. The messages that arrive are those of
  -- the events, in order, less those whose request did not: a failed task or run pages, a retry or
  -- late data only notifies, and nothing is sent on a channel that has no webhook.
  pub callbacks-messages :
      (es : List Event) (o : Outbox)
      → IsUsable is_url (webhook environ page_webhook_env)
      → IsUsable is_url (webhook environ notify_webhook_env)
      → All (λ a. IsCaught a.raised) o.attempts
      → let (result, o') = callbacks is_url environ es o in
        (result ≡ ok tt) × (o'.sent ≡ o.sent ++ arriving o.attempts (messages environ es))
  callbacks-messages es o page notify caught =
      let (o', run, arrived, _) = callbacks-Settles es o page notify caught in
      let ends : o'.sent ++ [] ≡ o.sent ++ arriving o.attempts (messages environ es ++ []) =
        arrived [] in
      rw run (refl, rw (append-nil o'.sent, append-nil (messages environ es)) at ends)
