-- ===== src/Run/Again/First.antt =====
-- The first run: what it has loaded, if it returns.
use batch_api_snowflake.Base.{
  ◌≡◌, refl, sym, subst, String, Bool, true, List, [], ◌∷◌, All, All-map,
}
use batch_api_snowflake.Exec.{Ensures, >>=-Ensures, pure-Ensures}
use batch_api_snowflake.Values.{Fields}
use batch_api_snowflake.Calendar.{Date}
use batch_api_snowflake.Platform.{Platform}
use batch_api_snowflake.Contract.{Contract}
use batch_api_snowflake.Models.{City, payload_hash}
use batch_api_snowflake.Warehouse.Session.{World}
use batch_api_snowflake.Warehouse.Loader.{is_load_of}
use batch_api_snowflake.Warehouse.Loader.Returns.{IsAfter}
use batch_api_snowflake.Run.{Settings, RunSummary, ingest_day, run_cities, run_days, add_partition}
use batch_api_snowflake.Run.Again.{IsSteady, IsKnown, IsReady, IsReady-trans, IsReady-self}
use batch_api_snowflake.Run.Again.Partition.{IsLoaded, ingest_day-Ensures}

module _ (p : Platform) (c : Contract) (s : Settings) (run_id : String)
    (payload_of : City → Date → Fields) where
  -- What a later world knows of some partitions.
  IsKnown-after :
      (w v : World) (day : Date) (cities : List City)
      → IsAfter w v
      → All (IsKnown p payload_of w day) cities
      → All (IsKnown p payload_of v day) cities
  IsKnown-after w v day cities after =
      All-map (IsKnown p payload_of w day) (IsKnown p payload_of v day)
        (λ city. after.keeps (is_load_of city.city_id day (payload_hash p (payload_of city day))))
        cities

  IsSteady-after :
      (w v : World) (day : Date) (cities : List City)
      → IsAfter w v
      → All (IsSteady s w.server payload_of day) cities
      → All (IsSteady s v.server payload_of day) cities
  IsSteady-after w v day cities after steady =
      subst (λ server. All (IsSteady s server payload_of day) cities) (sym after.same_server) steady

  -- After the cities of a day.
  abbrev AllKnown : World → Date → List City → RunSummary → World → Type 0
  AllKnown w day cities r v = IsReady w v × All (IsKnown p payload_of v day) cities

  run_cities-Ensures :
      (day : Date) (full_refresh : Bool) (cities : List City) (t : RunSummary) (w : World)
      → w.current ≡ w.committed
      → All (IsSteady s w.server payload_of day) cities
      → Ensures (run_cities p c s run_id day true full_refresh cities t w) (AllKnown w day cities)
  unfolding run_cities
  run_cities-Ensures day full_refresh [] t w settled steady =
      pure-Ensures (AllKnown w day []) t w (IsReady-self w w settled refl refl refl, tt)
  run_cities-Ensures day full_refresh (city ∷ cities) t w settled (now, steady) =
      let hash = payload_hash p (payload_of city day) in
      >>=-Ensures (IsLoaded p c s run_id w city day hash) (AllKnown w day (city ∷ cities))
        (ingest_day p c s run_id city day true full_refresh) _ w
        (ingest_day-Ensures p c s run_id w payload_of city day full_refresh settled now)
        (λ counts v (ready, known) r e.
          let (ready', rest) =
            run_cities-Ensures day full_refresh cities (add_partition t counts) v ready.settled
              (IsSteady-after w v day cities ready.after steady) r e in
          (
            IsReady-trans ready ready',
            (ready'.after.keeps (is_load_of city.city_id day hash) known, rest),
          ))

  -- After the days of a window.
  abbrev pub WindowKnown : World → List Date → List City → RunSummary → World → Type 0
  WindowKnown w days cities r v =
      IsReady w v × All (λ day. All (IsKnown p payload_of v day) cities) days

  pub run_days-Ensures :
      (days : List Date) (full_refresh : Bool) (cities : List City) (t : RunSummary) (w : World)
      → w.current ≡ w.committed
      → All (λ day. All (IsSteady s w.server payload_of day) cities) days
      → Ensures
          (run_days p c s run_id days true full_refresh cities t w)
          (WindowKnown w days cities)
  unfolding run_days
  run_days-Ensures [] full_refresh cities t w settled steady =
      pure-Ensures (WindowKnown w [] cities) t w (IsReady-self w w settled refl refl refl, tt)
  run_days-Ensures (day ∷ days) full_refresh cities t w settled (now, steady) =
      >>=-Ensures (AllKnown w day cities) (WindowKnown w (day ∷ days) cities)
        (run_cities p c s run_id day true full_refresh cities t) _ w
        (run_cities-Ensures day full_refresh cities t w settled now)
        (λ t' v (ready, known) r e.
          let (ready', rest) =
            run_days-Ensures days full_refresh cities t' v ready.settled
              (All-map (λ day. All (IsSteady s w.server payload_of day) cities)
                (λ day. All (IsSteady s v.server payload_of day) cities)
                (λ day. IsSteady-after w v day cities ready.after) days steady)
              r e in
          (IsReady-trans ready ready', (IsKnown-after v _ day cities ready'.after known, rest)))
