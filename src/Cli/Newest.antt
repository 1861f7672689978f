-- ===== src/Cli/Newest.antt =====
-- What `ingest` does when it is given no date.
use batch_api_snowflake.Base.{
  ◌≡◌, refl, ℕ, ◌+◌, ◌-◌, ◌≤◌, pos, String, Option, none, some, List, arith,
}
use batch_api_snowflake.Errors.{Result, ok}
use batch_api_snowflake.Calendar.{Date, max_ordinal}
use batch_api_snowflake.Platform.{Platform}
use batch_api_snowflake.Contract.{Contract}
use batch_api_snowflake.Models.{City}
use batch_api_snowflake.Catalogue.{load_cities}
use batch_api_snowflake.Warehouse.Session.{World}
use batch_api_snowflake.Run.{Settings, run_window}
use batch_api_snowflake.Run.OneDay.{sub_days-checked, run-one_day}
use batch_api_snowflake.Cli.{exit_of, resolve_dates, given}
use batch_api_snowflake.Cli.Commands.{
  IngestOptions, ingest, ingest_dates, resolve_run_id, only_of, listed,
}

-- `ingest` without a date, where the settings wait at least as long for the source as the contract
-- does: the day by the settings is never cut off, the run lands and loads that one day for the
-- cities of the options, and the process ends by what comes of that.
pub ingest-newest :
    (parse_date : String → Result Date) (p : Platform) (c : Contract) (s : Settings) (uuid : String)
    (wait lag today : ℕ) (catalogue : Option (Result (List City))) (o : IngestOptions)
    (ids : List String) (cities : List City) (w : World)
    → o.start ≡ none
    → o.day ≡ none
    → o.cities ≡ some ids
    → c.source_lag_days ≡ pos lag
    → lag ≤ wait
    → 1 + wait ≤ today
    → today ≤ max_ordinal
    → load_cities catalogue (only_of ids) ≡ ok cities
    → let day = today - wait in
      let (r, w') =
        run_window p c s
          (resolve_run_id o.run_id uuid)
          day
          day
          cities
          o.full_refresh
          o.land_only
          w in
      ingest p c s uuid parse_date (pos wait) today catalogue o w ≡ (exit_of r, w')
unfolding ingest ingest_dates resolve_dates given listed
ingest-newest parse_date p c s uuid wait lag today catalogue o ids cities w no_start no_day same_ids
      same_lag long_enough some_day before_end known =
    rw
      (
        no_start,
        no_day,
        same_ids,
        sub_days-checked today wait some_day before_end,
        known,
        run-one_day p c s (resolve_run_id o.run_id uuid) today (today - wait) lag cities
            o.full_refresh o.land_only w same_lag (omega (arith, some_day))
            (omega (arith, long_enough, some_day)) before_end,
      )
      refl
