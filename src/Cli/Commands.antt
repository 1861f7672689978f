-- ===== src/Cli/Commands.antt =====
-- src/pipeline/cli.py: the commands as a whole. What `uuid.uuid4` gives is a parameter, and so is the
-- session in which `apply-ddl` runs.
use Prim.Native.String
use batch_api_snowflake.Base.{ℕ, ℤ, String, ◌<>◌, Bool, Option, none, some, List, [], ◌∷◌, length}
use batch_api_snowflake.Base.Dict.{Dict}
use batch_api_snowflake.Errors.{Result, ok, err, type_error, ◌>>=◌}
use batch_api_snowflake.Exec.{Exec, continue, ◌>>=◌ as ◌>>>◌}
use batch_api_snowflake.Values.{Value, text}
use batch_api_snowflake.Calendar.{Date}
use batch_api_snowflake.Platform.{Platform}
use batch_api_snowflake.Contract.{Contract}
use batch_api_snowflake.Contract.Loading.{load_contract}
use batch_api_snowflake.Models.{City}
use batch_api_snowflake.Catalogue.{load_cities}
use batch_api_snowflake.Ddl.{Text}
use batch_api_snowflake.Ddl.Apply.{Script, apply_ddl}
use batch_api_snowflake.Warehouse.Session.{World}
use batch_api_snowflake.Run.{Settings, run}
use batch_api_snowflake.Cli.{Exit, traceback, exit_of, given, resolve_dates}

-- The options of `ingest`, as typer passes them; `list(city)` raises TypeError where it is None.
pub record IngestOptions : Type 0 where
  pub start : Option String
  pub end : Option String
  pub day : Option String
  pub cities : Option (List String)
  pub full_refresh : Bool
  pub land_only : Bool
  pub run_id : Option String

-- `run_id or f"manual__{uuid.uuid4().hex[:12]}"`
unfoldable pub resolve_run_id : Option String → String → String
unfolding given
resolve_run_id run_id uuid = elim (given run_id) [
  | none ↦ "manual__" <> String.slice uuid 0 12
  | some name ↦ name
]

-- `list(city) or None`
unfoldable pub only_of : List String → Option (List String)
only_of [] = none
only_of (id ∷ ids) = some (id ∷ ids)

unfoldable pub listed : Option (List String) → Result (List String)
listed none = err type_error
listed (some ids) = ok ids

module _ (p : Platform) (c : Contract) (s : Settings) (uuid : String) where
  -- `ingest` with its dates resolved: what the run does, and how the process ends.
  unfoldable pub ingest_dates :
      Date
      → Option (Result (List City))
      → IngestOptions
      → Result (Date × Date)
      → Result (List String)
      → World
      → Exit × World
  unfolding run load_cities exit_of resolve_run_id only_of
  ingest_dates today catalogue o (err e) ids w = (traceback e, w)
  ingest_dates today catalogue o (ok dates) (err e) w = (traceback e, w)
  ingest_dates today catalogue o (ok (start, end)) (ok ids) w =
      let (r, w') =
        continue (load_cities catalogue (only_of ids))
          (λ cities.
            run p c s (resolve_run_id o.run_id uuid) today start end cities o.full_refresh
              o.land_only)
          w in
      (exit_of r, w')

  -- `ingest`
  unfoldable pub ingest :
      (String → Result Date)
      → ℤ
      → Date
      → Option (Result (List City))
      → IngestOptions
      → World
      → Exit × World
  unfolding ingest_dates resolve_dates listed
  ingest parse_date source_lag_days today catalogue o =
      ingest_dates today catalogue o
        (resolve_dates parse_date o.start o.end o.day today source_lag_days) (listed o.cities)

-- `apply_ddl_command`, in a session that `connect` opens and `close` closes, whatever comes of it.
unfoldable pub apply_ddl_command :
    {S : Type 0}
    → Exec S (Unit {0})
    → (S → S)
    → (Text → Exec S (Unit {0}))
    → Exec S (Unit {0})
    → List Script
    → Exec S ℕ
unfolding apply_ddl
apply_ddl_command connect close execute commit scripts =
    connect >>> λ _. λ s. let (r, s') = apply_ddl execute commit scripts s in (r, close s')

-- What `check-contract` prints.
pub record ContractShape : Type 0 where
  pub name : Value
  pub version : ℤ
  pub grain : Value
  pub primary_key : String
  pub field_count : ℕ

-- `', '.join(values)`
unfoldable pub joined : List Value → Result String
joined [] = ok ""
joined (text s ∷ []) = ok s
joined (text s ∷ v ∷ vs) = joined (v ∷ vs) >>= λ rest. ok (s <> (", " <> rest))
joined (v ∷ vs) = err type_error

-- `check_contract`
unfoldable pub check_contract :
    (String → Option ℤ) → Dict String (Result Value) → String → ℕ → Result ContractShape
unfolding load_contract joined
check_contract int_of_text contracts name version = do
  contract ← load_contract int_of_text contracts name version
  primary_key ← joined contract.primary_key
  ok (record {
    name = contract.name;
    version = contract.version;
    grain = contract.grain;
    primary_key = primary_key;
    field_count = length contract.fields;
  })
