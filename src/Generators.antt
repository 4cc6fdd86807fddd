-- ===== src/Generators.antt =====
-- src/surface/generators.rs: header values with generators, the FNV-1a hash, the fingerprint of a tool, and
-- seconds as a date and time of day.
-- The clock and the random bytes are arguments. Times are not before 1970 (`epoch_millis` is unsigned),
-- so the days since then are a natural number and so is the era.
pub mod Civil
pub mod Examples
use Prim.Native.Nat.{bit_and, bit_or, bit_xor}
use min_mcp.Prelude.{
  ℕ, zero, suc, ◌+◌, ◌-◌, ◌*◌, ◌/◌, ◌%◌, ◌^◌, String, ◌<>◌, List, [], ◌∷◌, ltb, leb, if◌then◌else◌,
  replace, digit, show, as_bytes, ◌==◌, ◌||◌,
}
use min_mcp.Json.{Value}
use min_mcp.AuditChain.{JsonText}
use min_mcp.Results.{contains_text}

abbrev pub u64_size : ℕ
u64_size = 2 ^ 64

abbrev pub fnv_offset : ℕ
fnv_offset = 0xcbf29ce484222325

abbrev pub fnv_prime : ℕ
fnv_prime = 0x100000001b3

-- `wrapping_mul` is the product modulo 2 ^ 64.
pub fnv_step : ℕ → ℕ → ℕ
fnv_step h b = bit_xor h b * fnv_prime % u64_size

pub fnv_bytes : ℕ → List ℕ → ℕ
unfolding fnv_step
fnv_bytes h [] = h
fnv_bytes h (b ∷ bs) = fnv_bytes (fnv_step h b) bs

unfoldable pub fnv1a : String → ℕ
unfolding fnv_bytes as_bytes
fnv1a s = fnv_bytes fnv_offset (as_bytes s)

-- The last `width` digits of a number to the base 16: `{:016x}` and `{x:02x}`.
pub hex_digits : ℕ → ℕ → String → String
unfolding digit
hex_digits zero n rest = rest
hex_digits (suc width) n rest = hex_digits width (n / 16) (digit (n % 16) <> rest)

pub hash_text : ℕ → String
unfolding hex_digits
hash_text h = hex_digits 16 h ""

pub tool_fingerprint : JsonText → String → Value → String
unfolding fnv1a hash_text
tool_fingerprint J description schema = hash_text (fnv1a (description <> "\0" <> J.display schema))

-- `{n:02}` and `{y:04}` for what is below 100, and below 10000
pub two_digits : ℕ → String → String
unfolding digit
two_digits n rest = digit (n / 10 % 10) <> digit (n % 10) <> rest

pub year_text : ℕ → String → String
unfolding two_digits show
year_text y rest =
    if ltb y 10000 then two_digits (y / 100) (two_digits (y % 100) rest) else show y <> rest

pub record CivilDate : Type 0 where
  pub year : ℕ
  pub month : ℕ
  pub day : ℕ

-- The date of day `doy` of the year `y` that begins with its first of March.
pub date_in_year : ℕ → ℕ → CivilDate
date_in_year y doy =
    let mp : ℕ = (5 * doy + 2) / 153 in
    let d : ℕ = doy - (153 * mp + 2) / 5 + 1 in
    let m : ℕ = if ltb mp 10 then mp + 3 else mp - 9 in
    record { year = if leb m 2 then y + 1 else y; month = m; day = d }

-- The date of a day counted from the first of March of the year 0.
pub civil_from_days : ℕ → CivilDate
unfolding date_in_year
civil_from_days z =
    let era : ℕ = z / 146097 in
    let doe : ℕ = z - era * 146097 in
    let yoe : ℕ = (doe - doe / 1460 + doe / 36524 - doe / 146096) / 365 in
    date_in_year (yoe + era * 400) (doe - (365 * yoe + yoe / 4 - yoe / 100))

unfoldable pub iso8601_utc : ℕ → String
unfolding civil_from_days two_digits year_text
iso8601_utc secs =
    let days : ℕ = secs / 86400 in
    let tod : ℕ = secs % 86400 in
    let date : CivilDate = civil_from_days (days + 719468) in
    year_text date.year (
      "-"
      <> two_digits date.month (
          "-"
          <> two_digits date.day (
              "T"
              <> two_digits (tod / 3600)
                  (":" <> two_digits (tod % 3600 / 60) (":" <> two_digits (tod % 60) "Z")))))

-- One generator: its token is replaced where it stands.
pub fill : String → String → String → String
unfolding contains_text replace
fill token value out = if contains_text token out then replace out token value else out

unfoldable pub resolve_generators : String → String → String → ℕ → String
unfolding fill show iso8601_utc contains_text
resolve_generators s args_hash uuid millis =
    if contains_text "{{" s
    then fill "{{iso8601}}" (iso8601_utc (millis / 1000)) (
        fill "{{now}}" (show (millis / 1000))
          (fill "{{now_ms}}" (show millis) (fill "{{uuid}}" uuid (fill "{{hash}}" args_hash s))))
    else s

-- The random bytes with the version and the variant put in; `i` is the position of the first.
pub uuid_bytes : ℕ → List ℕ → List ℕ
uuid_bytes i [] = []
uuid_bytes i (b ∷ bs) =
    (if i == 6
      then bit_or (bit_and b 0x0f) 0x40
      else if i == 8
      then bit_or (bit_and b 0x3f) 0x80
      else b)
    ∷ uuid_bytes (i + 1) bs

-- The bytes as text, with dashes before the bytes 4, 6, 8 and 10.
pub uuid_text : ℕ → List ℕ → String
unfolding hex_digits
uuid_text i [] = ""
uuid_text i (b ∷ bs) =
    let rest : String = hex_digits 2 b (uuid_text (i + 1) bs) in
    if i == 4 || i == 6 || i == 8 || i == 10 then "-" <> rest else rest

-- `gen_uuid` where the OS gave sixteen bytes
unfoldable pub gen_uuid : List ℕ → String
unfolding uuid_bytes uuid_text
gen_uuid b = uuid_text 0 (uuid_bytes 0 b)
