-- ===== src/Models/Tests.antt =====
-- `flatten_hourly` at a payload of two hours, and at one whose series is too short.
use batch_api_snowflake.Base.{
  pos, arith, ◌≡◌, refl, List, [], ◌∷◌, String-discrete, inl, inr, All, Some,
}
use batch_api_snowflake.Errors.{ok, err, value_error}
use batch_api_snowflake.Values.{Value, text, float, fin}
use batch_api_snowflake.Models.{
  flatten_hourly, sources, get_field, dict_or_empty, list_or_empty, observation, point, element_at,
  coordinate, parse_time,
}
use batch_api_snowflake.Models.Alignment.{flatten_hourly-Hours, Hours}
use batch_api_snowflake.Models.Ragged.{flatten_hourly-ragged, IsCountable, IsRagged}
use batch_api_snowflake.Fixtures.{
  platform, berlin, payload, hourly, ragged, ragged_hourly, first_hour, second_hour,
}

abbrev two_times : List Value
two_times = text "2026-08-20T00:00" ∷ text "2026-08-20T01:00" ∷ []

two_hours : flatten_hourly platform berlin payload ≡ ok (first_hour ∷ second_hour ∷ [])
unfolding flatten_hourly String-discrete dict_or_empty get_field list_or_empty observation point
    element_at coordinate parse_time
two_hours = refl

flatten_hourly-Hours_example :
    Hours platform berlin payload hourly 0 two_times (first_hour ∷ second_hour ∷ [])
unfolding flatten_hourly String-discrete dict_or_empty get_field list_or_empty observation point
    element_at coordinate parse_time
flatten_hourly-Hours_example =
    flatten_hourly-Hours platform berlin payload hourly two_times (first_hour ∷ second_hour ∷ [])
      refl refl refl

All-IsCountable : All (λ s. IsCountable (get_field ragged_hourly s)) sources
unfolding flatten_hourly String-discrete dict_or_empty get_field list_or_empty observation point
    element_at coordinate parse_time
All-IsCountable =
    (inr (float (fin (pos 20)) ∷ [], refl), (inl refl, (inl refl, (inl refl, (inl refl, tt)))))

Some-IsRagged : Some (λ s. IsRagged 2 (get_field ragged_hourly s)) sources
unfolding flatten_hourly String-discrete dict_or_empty get_field list_or_empty observation point
    element_at coordinate parse_time
Some-IsRagged = inl ((λ e. cc), (float (fin (pos 20)) ∷ [], refl, λ e. omega (arith, e)))

flatten_hourly-ragged_example : flatten_hourly platform berlin ragged ≡ err value_error
unfolding flatten_hourly String-discrete dict_or_empty get_field list_or_empty observation point
    element_at coordinate parse_time
flatten_hourly-ragged_example =
    flatten_hourly-ragged platform berlin ragged ragged_hourly (text "2026-08-20T00:00")
      (text "2026-08-20T01:00" ∷ []) refl refl All-IsCountable Some-IsRagged
