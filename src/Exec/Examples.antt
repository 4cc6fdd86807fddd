-- ===== src/Exec/Examples.antt =====
-- src/exec.rs: the theorems at concrete paths and headers, and requests as they are built.
use min_mcp.Prelude.{◌≡◌, refl, [], ◌∷◌, length, split, utf8, contains}
use min_mcp.Json.{string, Fields, end, field}
use min_mcp.Results.Examples.{text}
use min_mcp.Exec.{encode_path_segment, escape, eq_ignore_ascii_case, fill_path, put_headers}
use min_mcp.Exec.Path.{length-split-fill_path}
use min_mcp.Exec.Headers.{values, values-put_headers}

encode_path_segment_runs : encode_path_segment "../a b" ≡ "..%2Fa%20b"
unfolding encode_path_segment escape utf8
encode_path_segment_runs = refl

abbrev names : Fields
names = field "owner" (string "..") (field "repo" (string "a/b") end)

length-split-fill_path_example :
    length (split b'/' (fill_path text names "/repos/{owner}/{repo}"))
    ≡ length (split b'/' "/repos/{owner}/{repo}")
unfolding contains
length-split-fill_path_example =
    length-split-fill_path text names "/repos/{owner}/{repo}" (refl, (refl, tt))

values-put_headers_example :
    values "accept" (put_headers (("ACCEPT", "text/plain") ∷ []) (("Accept", "*/*") ∷ []))
    ≡ "text/plain" ∷ []
unfolding eq_ignore_ascii_case
values-put_headers_example =
    values-put_headers "accept" (("ACCEPT", "text/plain") ∷ []) (("Accept", "*/*") ∷ [])
