-- ===== src/Cache/Examples.antt =====
-- src/surface/cache.rs: the theorem at arguments with the keys in two orders.
use min_mcp.Prelude.{◌≡◌, refl}
use min_mcp.Json.{Value, string, object, end, field}
use min_mcp.Results.Examples.{text}
use min_mcp.Cache.{canonical_args}
use min_mcp.Cache.Canonical.{fields, swap, Same-canonical_args}

abbrev a_first : Value
a_first = object (field "amount" (string "5") (field "currency" (string "usd") end))

abbrev c_first : Value
c_first = object (field "currency" (string "usd") (field "amount" (string "5") end))

Same-canonical_args_example : canonical_args text a_first ≡ canonical_args text c_first
Same-canonical_args_example = Same-canonical_args text (fields (swap "amount" "currency" refl))
