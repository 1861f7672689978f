-- ===== src/Errors.antt =====
-- The exceptions that the pipeline raises or lets through, and the two shapes of fallible code: a
-- pure function returns a `Result`; a function that also touches the outside world is an `Exec`,
-- whose state comes back beside the error too, since what was written before a raise stays
-- written. An exception carries the values that its message is formatted from.
use batch_api_snowflake.Base.{ℕ, String, Bool, true, false, ◌≡◌, refl, ◌⊎◌, inl, inr}

pub data Error : Type 0 where
  -- builtins
  value_error type_error key_error index_error attribute_error overflow_error file_not_found : Error
  -- pydantic.ValidationError, pyarrow.ArrowInvalid
  validation_error arrow_invalid : Error
  -- pipeline.contracts.ContractError
  contract_error : String → Error
  -- pipeline.quality.DataQualityError, with the rejected and the total rows of the report
  data_quality_error : ℕ → ℕ → Error
  -- pipeline.api.client: TransientApiError, and PermanentApiError with the status code
  transient_api_error : Error
  permanent_api_error : ℕ → Error
  -- an exception of the warehouse driver, by its text
  driver_error : String → Error

-- What a call gives: the exception that it raised, or the value that it returned.
pub data Result {ℓ} (A : Type ℓ) : Type ℓ where
  err : Error → Result A
  ok : A → Result A

-- `if not test: raise error`
abbrev pub guard : Bool → Error → Result (Unit {0})
guard false error = err error
guard true error = ok tt

module _ {ℓ κ} {A : Type ℓ} {B : Type κ} where
  infixl 10 ◌>>=◌
  abbrev pub ◌>>=◌ : Result A → (A → Result B) → Result B
  err raised >>= next = err raised
  ok value >>= next = next value

module _ {κ} {B : Type κ} where
  infixl 10 ◌>>◌
  abbrev pub ◌>>◌ : Result (Unit {0}) → Result B → Result B
  ◌>>◌ test rest = test >>= λ passed. rest

module _ {ℓ κ} {A : Type ℓ} {B : Type κ} {result : B} where
  -- A chain that returned: its first part returned, and then its rest did.
  pub >>=-eq-ok :
      (call : Result A) (next : A → Result B)
      → call >>= next ≡ ok result
      → (value : A) × (call ≡ ok value) × (next value ≡ ok result)
  >>=-eq-ok (err raised) next returned = cc
  >>=-eq-ok (ok value) next returned = (value, refl, returned)

pub ok-injective {ℓ} : {A : Type ℓ} {a b : A} → ok a ≡ ok b → a ≡ b
ok-injective h = cc

pub Result-cases {ℓ} :
    {A : Type ℓ} (r : Result A) → ((a : A) × (r ≡ ok a)) ⊎ ((e : Error) × (r ≡ err e))
Result-cases (ok a) = inl (a, refl)
Result-cases (err e) = inr (e, refl)
