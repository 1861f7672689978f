-- ===== src/Client/Retries.antt =====
-- Which failures are retried, and how often.
use batch_api_snowflake.Base.{
  ◌≡◌, refl, inl, inr, ℕ, zero, suc, ◌+◌, ◌-◌, ◌≤◌, ◌<◌, ◌==◌, leb, true, false,
}
use batch_api_snowflake.Base.{Option, none, some, arith, Bool-cases, ap, ◌∙◌, ℕ_discrete}
use batch_api_snowflake.Errors.{Result, ok, err, transient_api_error}
use batch_api_snowflake.Values.{Value}
use batch_api_snowflake.Client.{
  Response, transport_failure, response, get_once, is_transient, attempts, get,
}

-- A failure that the client takes for transient: the transport, 429, 5xx, or a body that is not
-- JSON under a status below 400.
pub data IsTransient : Response → Type 0 where
  transport : IsTransient transport_failure
  rate_limited : (body : Option Value) (s : ℕ) → s ≡ 429 → IsTransient (response s body)
  server_error : (body : Option Value) (s : ℕ) → 500 ≤ s → IsTransient (response s body)
  not_json : (b : Option Value) (s : ℕ) → s < 400 → b ≡ none → IsTransient (response s b)

IsTransient-get_once : {r : Response} → IsTransient r → get_once r ≡ err transient_api_error
unfolding get_once
IsTransient-get_once transport = refl
IsTransient-get_once (rate_limited body s e) = ground arith
IsTransient-get_once (server_error body s e) = ground arith
IsTransient-get_once (not_json b s lt e) = ground arith

-- Only a transient failure gives a TransientApiError.
get_once-IsTransient : (r : Response) → get_once r ≡ err transient_api_error → IsTransient r
unfolding get_once
get_once-IsTransient transport_failure h = transport
get_once-IsTransient (response s none) h = elim (Bool-cases (s == 429)) [
  | inl e ↦ rate_limited none s (ground arith)
  | inr e ↦ elim (Bool-cases (leb 500 s)) [
    | inl f ↦ server_error none s (ground arith)
    | inr f ↦ elim (Bool-cases (leb 400 s)) [
      | inl g ↦ ground arith
      | inr g ↦ not_json none s (ground arith) refl
    ]
  ]
]
get_once-IsTransient (response s (some v)) h = elim (Bool-cases (s == 429)) [
  | inl e ↦ rate_limited (some v) s (ground arith)
  | inr e ↦ elim (Bool-cases (leb 500 s)) [
    | inl f ↦ server_error (some v) s (ground arith)
    | inr f ↦ elim (Bool-cases (leb 400 s)) [ inl g ↦ ground arith | inr g ↦ ground arith ]
  ]
]

is_transient-eq-true : (x : Result Value) → is_transient x ≡ true → x ≡ err transient_api_error
unfolding is_transient
is_transient-eq-true (err transient_api_error) e = refl
is_transient-eq-true (ok v) e = cc
is_transient-eq-true (err _) e = cc

is_transient-false : (r : Response) → ¬ IsTransient r → is_transient (get_once r) ≡ false
is_transient-false r h = elim (Bool-cases (is_transient (get_once r))) [
  | inl e ↦ absurd (h (get_once-IsTransient r (is_transient-eq-true (get_once r) e)))
  | inr e ↦ e
]

attempts-settled :
    (server : ℕ → Response) (more i m : ℕ)
    → i ≤ m
    → m ≤ i + more
    → ((j : ℕ) → i ≤ j → j < m → IsTransient (server j))
    → ¬ IsTransient (server m)
    → attempts server more i ≡ (get_once (server m), suc m)
unfolding attempts
attempts-settled server zero i m le bound before now =
    let same : i ≡ m = omega arith in rw same refl
attempts-settled server (suc more) i m le bound before now = elim (ℕ_discrete i m) [
  | yes same ↦ rw (same, is_transient-false (server m) now) refl
  | no differ ↦ rw (IsTransient-get_once (before i (omega arith) (omega arith))) (
      attempts-settled server more (suc i) m (omega arith) (omega arith)
        (λ j le' lt. before j (omega arith) lt) now)
]

attempts-exhausted :
    (server : ℕ → Response) (more i : ℕ)
    → ((j : ℕ) → i ≤ j → j ≤ i + more → IsTransient (server j))
    → attempts server more i ≡ (err transient_api_error, suc (i + more))
unfolding attempts is_transient
attempts-exhausted server zero i fails =
    let same : i + 0 ≡ i = omega arith in
    rw (same, IsTransient-get_once (fails i (omega arith) (omega arith))) refl
attempts-exhausted server (suc more) i fails =
    rw (IsTransient-get_once (fails i (omega arith) (omega arith))) (
      attempts-exhausted server more (suc i) (λ j le le'. fails j (omega arith) (omega arith))
      ∙ ap (λ n. (err transient_api_error, n)) (omega arith))

-- The request m of a run is the answer of a GET that starts with the request i, and the last one
-- that is made, if it is the first that does not fail transiently and one of the `max_retries`
-- requests that are allowed (of 1, when `max_retries` is 0).
pub get-settled :
    (server : ℕ → Response) (max_retries i m : ℕ)
    → i ≤ m
    → m ≤ i + (max_retries - 1)
    → ((j : ℕ) → i ≤ j → j < m → IsTransient (server j))
    → ¬ IsTransient (server m)
    → get server max_retries i ≡ (get_once (server m), suc m)
unfolding get
get-settled server max_retries i m = attempts-settled server (max_retries - 1) i m

-- When the `max_retries` requests that are allowed (1, when `max_retries` is 0) all fail
-- transiently, all are made and the GET raises TransientApiError.
pub get-exhausted :
    (server : ℕ → Response) (max_retries i : ℕ)
    → ((j : ℕ) → i ≤ j → j ≤ i + (max_retries - 1) → IsTransient (server j))
    → get server max_retries i ≡ (err transient_api_error, suc (i + (max_retries - 1)))
unfolding get
get-exhausted server max_retries i = attempts-exhausted server (max_retries - 1) i
