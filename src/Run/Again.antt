-- ===== src/Run/Again.antt =====
-- A run over a window that a run has loaded before.
pub mod Partition
pub mod First
pub mod Second
pub mod Twice
pub mod Tests
use batch_api_snowflake.Base.{
  ◌≡◌, refl, sym, ◌∙◌, ap, subst, ℕ, String, Bool, true, false, List, [], ◌∷◌, All, any,
}
use batch_api_snowflake.Errors.{ok}
use batch_api_snowflake.Values.{Fields}
use batch_api_snowflake.Calendar.{Date}
use batch_api_snowflake.Platform.{Platform}
use batch_api_snowflake.Models.{City, payload_hash}
use batch_api_snowflake.Client.{Server, fetch_hourly}
use batch_api_snowflake.Warehouse.Session.{World}
use batch_api_snowflake.Warehouse.Loader.{is_load_of}
use batch_api_snowflake.Warehouse.Loader.Returns.{IsAfter, IsAfter-self, IsAfter-trans}
use batch_api_snowflake.Run.{Settings, date_range}

-- Whenever it is asked, the server sends this payload for the city and the day.
abbrev pub IsSteady : Settings → Server → (City → Date → Fields) → Date → City → Type 0
IsSteady s server payload_of day city =
    (i : ℕ)
    → (fetch_hourly server s.weather_api_base_url s.weather_api_max_retries i city day day).0
      ≡ ok (payload_of city day)

-- Every partition of the window has one payload at this server.
abbrev pub IsSteadyOver :
    Settings → Server → (City → Date → Fields) → List City → Date → Date → Type 0
IsSteadyOver s server payload_of cities start end =
    All (λ day. All (IsSteady s server payload_of day) cities) (date_range start end)

-- The audit has a load of this payload.
abbrev pub IsKnown : Platform → (City → Date → Fields) → World → Date → City → Type 0
IsKnown p payload_of w day city =
    any (is_load_of city.city_id day (payload_hash p (payload_of city day))) w.current.audit ≡ true

-- A world after another one, with nothing pending.
pub record IsReady (w v : World) : Type 0 where
  pub after : IsAfter w v
  pub settled : v.current ≡ v.committed

pub IsReady-trans : {w v u : World} → IsReady w v → IsReady v u → IsReady w u
IsReady-trans h k = record { after = IsAfter-trans h.after k.after; settled = k.settled }

pub IsReady-self :
    (w v : World)
    → w.current ≡ w.committed
    → v.current ≡ w.current
    → v.committed ≡ w.committed
    → v.server ≡ w.server
    → IsReady w v
IsReady-self w v settled same_current same_committed same_server = record {
  after = IsAfter-self w v same_current same_server;
  settled = same_current ∙ settled ∙ sym same_committed;
}
