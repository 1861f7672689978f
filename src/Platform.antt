-- ===== src/Platform.antt =====
-- What the pipeline calls and does not implement: functions of the standard library and of
-- pydantic whose results the model does not compute. They are a parameter of the definitions that
-- use them; a theorem that relies on one of their documented properties says so as a hypothesis.
use batch_api_snowflake.Base.{ℤ, Bool, String, Option}
use batch_api_snowflake.Values.{Float, Datetime, Value, Fields}

pub record Platform : Type 0 where
  -- `hashlib.sha256(s.encode()).hexdigest()`
  pub sha256_hex : String → String
  -- `json.dumps(payload, sort_keys=True, separators=(",", ":"), default=str)`
  pub dumps : Fields → String
  -- `datetime.fromisoformat(s)`; `none` is a ValueError
  pub from_iso : String → Option Datetime
  -- `float(s)` of a text; `none` is a ValueError
  pub float_of_text : String → Option Float
  -- pydantic's reading of a value for a field of type `float` and of type `int`, in lax mode;
  -- `none` is a ValidationError
  pub float_field : Value → Option Float
  pub int_field : Value → Option ℤ
  -- whether an integer fits a column of Arrow's type int32; where one does not,
  -- `pa.Table.from_pylist` raises ArrowInvalid
  pub int32_fits : ℤ → Bool
