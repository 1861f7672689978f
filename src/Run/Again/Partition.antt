-- ===== src/Run/Again/Partition.antt =====
-- `ingest_day`, and `load_batch` below it: what they have loaded, if they return.
use batch_api_snowflake.Base.{
  ◌≡◌, refl, sym, ◌∙◌, subst, ℕ, String, Bool, true, false, List, [], ◌∷◌, any, all, length,
  Bool-cases, inl, inr, is_empty, if◌then◌else◌,
}
use batch_api_snowflake.Errors.{value_error, ok-injective}
use batch_api_snowflake.Exec.{Exec, pure, raise, lift, ◌>>=◌, Ensures, >>=-Ensures, pure-Ensures}
use batch_api_snowflake.Values.{Fields, Datetime}
use batch_api_snowflake.Calendar.{Date}
use batch_api_snowflake.Platform.{Platform}
use batch_api_snowflake.Contract.{Contract}
use batch_api_snowflake.Models.{City, WeatherObservation, flatten_hourly, payload_hash}
use batch_api_snowflake.Disk.{FilePath, Disk}
use batch_api_snowflake.Landing.{LandedBatch, write_batch, clear_partition, fits_schema}
use batch_api_snowflake.Landing.Publishing.{landed, write_batch_lem, write_batch_misfit}
use batch_api_snowflake.Quality.{QualityReport}
use batch_api_snowflake.Warehouse.Session.{AuditRow, World, call, select_audit, select_effect}
use batch_api_snowflake.Warehouse.Loader.{is_load_of, already_loaded, load_batch}
use batch_api_snowflake.Warehouse.Loader.Returns.{IsLoadOf, call-Ensures, load_batch-Ensures}
use batch_api_snowflake.Run.Ingest.{gate}
use batch_api_snowflake.Run.{
  accepted_among, Settings, on_disk, fetch_day, is_unchanged, load_landed, land_observations,
  ingest_payload, ingest_day,
}
use batch_api_snowflake.Run.Again.{IsSteady, IsReady, IsReady-trans, IsReady-self}

-- The batch that `write_batch` returns is one of its arguments.
abbrev IsBatchOf : String → Date → String → LandedBatch → Type 0
IsBatchOf city_id day hash b =
    (b.city_id ≡ city_id) × (b.observation_date ≡ day) × (b.payload_hash ≡ hash)

write_batch-Ensures :
    (p : Platform) (root : FilePath) (now : Datetime) (city_id : String) (day : Date)
    (os : List WeatherObservation) (hash : String) (d : Disk)
    → Ensures (write_batch p root now city_id day os hash d) (λ b d'. IsBatchOf city_id day hash b)
write_batch-Ensures p root now city_id day os hash d = elim (Bool-cases (all (fits_schema p) os)) [
  | inl fits ↦ rw (write_batch_lem p root now city_id day os hash d fits) (
      pure-Ensures (λ b d'. IsBatchOf city_id day hash b) (landed p root now city_id day os hash) d
        (refl, refl, refl))
  | inr misfit ↦ rw (write_batch_misfit p root now city_id day os hash d misfit) (λ b e. cc e)
]

on_disk-Ensures :
    {A : Type 0} (F : A → Type 0) (m : Exec Disk A) (w v : World)
    → Ensures (m v.disk) (λ a d. F a)
    → IsReady w v
    → Ensures (on_disk m v) (λ a u. F a × IsReady w u)
unfolding on_disk
on_disk-Ensures F m w v holds ready a e =
    (holds a e, IsReady-trans ready (IsReady-self v _ ready.settled refl refl refl))

module _ (p : Platform) (c : Contract) (s : Settings) (run_id : String) (w : World) where
  -- After the load of a payload for the city and the day.
  abbrev pub IsLoaded : City → Date → String → ℕ × ℕ × ℕ → World → Type 0
  IsLoaded city day hash counts v =
      IsReady w v × (any (is_load_of city.city_id day hash) v.current.audit ≡ true)

  load_landed-Ensures :
      (city : City) (day : Date) (hash : String) (fetched : ℕ) (report : QualityReport)
      (b : LandedBatch) (v : World)
      → IsBatchOf city.city_id day hash b
      → IsReady w v
      → Ensures (load_landed p c s run_id true fetched report b v) (IsLoaded city day hash)
  unfolding load_landed
  load_landed-Ensures city day hash fetched report b v (same_city, same_day, same_hash) ready =
      >>=-Ensures (λ l. IsLoadOf b v) (IsLoaded city day hash)
        (load_batch b run_id fetched report.rejected_rows s.now s.now) _ v
        (load_batch-Ensures b run_id fetched report.rejected_rows s.now s.now v)
        (λ l u load. pure-Ensures (IsLoaded city day hash) _ u (
          IsReady-trans ready (record { after = load.after; settled = load.settled }),
          rw (← same_city, ← same_day, ← same_hash) load.marked,
        ))

  land_observations-Ensures :
      (city : City) (day : Date) (hash : String) (full_refresh : Bool)
      (os : List WeatherObservation) (v : World)
      → IsReady w v
      → Ensures
          (land_observations p c s run_id city day hash true full_refresh os v)
          (IsLoaded city day hash)
  unfolding land_observations
  land_observations-Ensures city day hash full_refresh os v ready =
      let Q = IsLoaded city day hash in
      >>=-Ensures (λ checked u. Unit {0} × IsReady w u) Q (on_disk (gate c s city day os)) _ v
        (on_disk-Ensures (λ checked. Unit {0}) (gate c s city day os) w v (λ a h. tt) ready)
        (λ checked u h.
          >>=-Ensures (λ done. IsReady w) Q
            (if full_refresh
              then on_disk (clear_partition s.landing_zone_root day city.city_id)
              else pure tt)
            _ u (refreshed full_refresh u h.1)
            (λ done u ready.
              let writing =
                write_batch p s.landing_zone_root s.now city.city_id day
                  (accepted_among checked.0 os) hash in
              >>=-Ensures (λ b u. IsBatchOf city.city_id day hash b × IsReady w u) Q
                (on_disk writing) _ u
                (on_disk-Ensures (IsBatchOf city.city_id day hash) writing w u
                  (write_batch-Ensures p s.landing_zone_root s.now city.city_id day
                    (accepted_among checked.0 os) hash u.disk)
                  ready)
                (λ b u h. load_landed-Ensures city day hash (length os) checked.1 b u h.0 h.1)))
    where
      refreshed :
          (full_refresh : Bool) (u : World)
          → IsReady w u
          → Ensures
              ((if full_refresh
                  then on_disk (clear_partition s.landing_zone_root day city.city_id)
                  else pure tt)
                u)
              (λ done. IsReady w)
      refreshed true u ready = λ a e.
          (on_disk-Ensures (λ done. Unit {0}) (clear_partition s.landing_zone_root day city.city_id)
            w u (λ a h. tt) ready a e).1
      refreshed false u ready = pure-Ensures (λ done. IsReady w) tt u ready

  ingest_payload-Ensures :
      (city : City) (day : Date) (payload : Fields) (full_refresh : Bool) (v : World)
      → IsReady w v
      → Ensures
          (ingest_payload p c s run_id city day payload true full_refresh v)
          (IsLoaded city day (payload_hash p payload))
  unfolding ingest_payload
  ingest_payload-Ensures city day payload full_refresh v ready =
      let Q = IsLoaded city day (payload_hash p payload) in
      >>=-Ensures (λ os. IsReady w) Q (lift (flatten_hourly p city payload)) _ v (λ os e. ready)
        (λ os u ready. flattened os u ready)
    where
      flattened :
          (os : List WeatherObservation) (u : World)
          → IsReady w u
          → Ensures
              ((if is_empty os
                  then raise value_error
                  else land_observations p c s run_id city day
                      (payload_hash p payload)
                      true
                      full_refresh
                      os)
                u)
              (IsLoaded city day (payload_hash p payload))
      flattened [] u ready = λ a e. cc e
      flattened (o ∷ os) u ready =
          land_observations-Ensures city day (payload_hash p payload) full_refresh (o ∷ os) u ready

  -- What the guard answers: when it skips a partition, the audit has the load.
  abbrev Answers : City → Date → String → Bool → World → Type 0
  Answers city day hash unchanged v =
      IsReady w v
      × (unchanged ≡ true → any (is_load_of city.city_id day hash) v.current.audit ≡ true)

  is_unchanged-Ensures :
      (city : City) (day : Date) (payload : Fields) (full_refresh : Bool) (v : World)
      → IsReady w v
      → Ensures
          (is_unchanged p c s run_id city day payload true full_refresh v)
          (Answers city day (payload_hash p payload))
  unfolding is_unchanged already_loaded select_audit
  is_unchanged-Ensures city day payload true v ready =
      pure-Ensures (Answers city day (payload_hash p payload)) false v (ready, λ e. cc e)
  is_unchanged-Ensures city day payload false v ready =
      let Seen : List AuditRow → World → Type 0 =
        λ rows u. IsReady w u × (u.current.audit ≡ rows) in
      >>=-Ensures Seen (Answers city day (payload_hash p payload)) (call select_effect) _ v
        (call-Ensures Seen select_effect v (λ rows e.
          (IsReady-trans ready (IsReady-self v _ ready.settled refl refl refl), ok-injective e)))
        (λ rows u (ready, same).
          pure-Ensures (Answers city day (payload_hash p payload)) _ u (ready, λ e. rw same e))

  pub ingest_day-Ensures :
      (payload_of : City → Date → Fields) (city : City) (day : Date) (full_refresh : Bool)
      → w.current ≡ w.committed
      → IsSteady s w.server payload_of day city
      → Ensures
          (ingest_day p c s run_id city day true full_refresh w)
          (IsLoaded city day (payload_hash p (payload_of city day)))
  unfolding ingest_day fetch_day
  ingest_day-Ensures payload_of city day full_refresh settled steady =
      let sent = payload_of city day in
      let Q = IsLoaded city day (payload_hash p sent) in
      let Fetched : Fields → World → Type 0 = λ payload v. (sent ≡ payload) × IsReady w v in
      >>=-Ensures Fetched Q (fetch_day s city day) _ w
        (λ payload e.
          (ok-injective (sym (steady w.requests) ∙ e), IsReady-self w _ settled refl refl refl))
        (λ payload v (same, ready).
          subst
            (λ payload.
              Ensures
                ((is_unchanged p c s run_id city day payload true full_refresh >>= λ unchanged.
                    if unchanged
                    then pure (0, 0, 0)
                    else ingest_payload p c s run_id city day payload true full_refresh)
                  v)
                Q)
            same
            (>>=-Ensures (Answers city day (payload_hash p sent)) Q
              (is_unchanged p c s run_id city day sent true full_refresh) _ v
              (is_unchanged-Ensures city day sent full_refresh v ready)
              (λ unchanged u answer. answered unchanged u answer)))
    where
      answered :
          (unchanged : Bool) (u : World)
          → Answers city day (payload_hash p (payload_of city day)) unchanged u
          → Ensures
              ((if unchanged
                  then pure (0, 0, 0)
                  else ingest_payload p c s run_id city day (payload_of city day) true full_refresh)
                u)
              (IsLoaded city day (payload_hash p (payload_of city day)))
      answered true u (ready, known) =
          pure-Ensures (IsLoaded city day (payload_hash p (payload_of city day))) (0, 0, 0) u
            (ready, known refl)
      answered false u (ready, known) =
          ingest_payload-Ensures city day (payload_of city day) full_refresh u ready
