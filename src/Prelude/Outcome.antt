-- ===== src/Prelude/Outcome.antt =====
-- The outcome of an extension function: a value, or an abort. `pgx` turns a Rust panic and the
-- `error!` macro alike into a PostgreSQL ERROR that ends the statement.
use mathlib.Core.Option.{Option, none, some}
use mathlib.Core.Path.{◌≡◌, refl}

-- The message of each `error!` call of the aggregates, and the panics of the language.
pub data Fault : Type 0 where
  divide_by_zero divide_overflow capacity_overflow index_out_of_bounds : Fault
  input_time_greater_than_expected input_time_less_than_expected : Fault
  input_time_greater_than_last_bucket incompatible_vector_selectors : Fault
  -- Of `prom_rate`, and of `prom_delta` and `prom_increase`.
  not_in_bounds less_than_lowest_time : Fault
  inputs_not_ascending not_an_aggregate : Fault
  -- No fault of the program: a loop of the model has used up its rounds.
  out_of_fuel : Fault
  serialization_error deserialization_error no_bytes invalid_version invalid_serialization_type :
      Fault
  size_too_large bad_pattern : Fault
  non_utf8_name helper_not_regular operator_not_found : Fault
  null_datum invalid_free assertion_failed unknown_version unset_variable null_column null_pointer
        bad_config database_error unwrap_failed :
      Fault
  no_dash no_number gap_or_duplicate prefix_too_high : Fault
  unexpected_token invalid_iterator_result invalid_scalar_type : Fault

pub data Result {ℓ} (A : Type ℓ) : Type ℓ where
  ok : A → Result A
  err : Fault → Result A

infixl 5 ◌>>=◌
abbrev pub ◌>>=◌ {ℓ κ} : {A : Type ℓ} {B : Type κ} → Result A → (A → Result B) → Result B
ok value >>= next = next value
err fault >>= next = err fault

abbrev pub or_fault {ℓ} : {A : Type ℓ} → Fault → Option A → Result A
or_fault e none = err e
or_fault e (some a) = ok a

-- What succeeds took its steps.
pub first_step :
    {A B : Type 0} (m : Result A) (k : A → Result B) (b : B)
    → (m >>= k) ≡ ok b
    → (a : A) × (m ≡ ok a) × (k a ≡ ok b)
first_step (ok a) k b e = (a, refl, e)
first_step (err f) k b e = cc

pub ok_unique : {A : Type 0} (a b : A) → ok a ≡ ok b → a ≡ b
ok_unique a b e = cc

pub some_unique : {A : Type 0} (a b : A) → some a ≡ some b → a ≡ b
some_unique a b e = cc
