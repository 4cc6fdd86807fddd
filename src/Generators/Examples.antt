-- ===== src/Generators/Examples.antt =====
-- src/surface/generators.rs: the calendar, the hash and the tokens at concrete inputs.
use min_mcp.Prelude.{◌≡◌, refl}
use min_mcp.Generators.{civil_from_days, iso8601_utc, fnv1a, resolve_generators}
use min_mcp.Generators.Civil.{days_from_civil, IsDate, days_from_civil-civil_from_days}

days_from_civil-civil_from_days_example :
    (days_from_civil (civil_from_days 738154) ≡ 738154) × IsDate (civil_from_days 738154)
days_from_civil-civil_from_days_example = days_from_civil-civil_from_days 738154

iso8601_utc_runs : iso8601_utc 1709210096 ≡ "2024-02-29T12:34:56Z"
unfolding iso8601_utc
iso8601_utc_runs = refl

fnv1a_runs : fnv1a "a" ≡ 0xaf63dc4c8601ec8c
unfolding fnv1a
fnv1a_runs = refl

resolve_generators_runs : resolve_generators "id-{{hash}}/{{now}}" "ff" "u" 1500 ≡ "id-ff/1"
unfolding resolve_generators
resolve_generators_runs = refl
