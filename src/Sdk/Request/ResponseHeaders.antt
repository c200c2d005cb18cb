-- ===== src/Sdk/Request/ResponseHeaders.antt =====
-- Response headers as a record with lower-case names, and the request id that they carry.
use zamapay.Prelude.{ℕ, Option, none, some, List, [], ◌∷◌, ◌++◌, if◌then◌else◌}
use zamapay.Prelude.Text.{Text, lit, str_eq, nonempty, to_lower}
use zamapay.Sdk.Errors.{Headers}
use zamapay.Sdk.Request.{
  HeaderValue, absent, one, many, FetchHeaders, for_each, getter, plain, LastResponse,
}

-- `record[name]`
unfoldable pub header : Text → Headers → Option Text
header name [] = none
header name ((k, v) ∷ h) = if str_eq k name then some v else header name h

-- `record[name] = value`
unfoldable pub put_header : Text → Text → Headers → Headers
put_header name value [] = (name, value) ∷ []
put_header name value ((k, v) ∷ h) =
    if str_eq k name then (name, value) ∷ h else (k, v) ∷ put_header name value h

abbrev pub request_id_headers : List Text
request_id_headers = lit "request-id" ∷ lit "x-request-id" ∷ lit "zamapay-request-id" ∷ []

-- `values.join(", ")`
unfoldable pub join : Text → List Text → Text
join separator [] = []
join separator (s ∷ []) = s
join separator (s ∷ t ∷ rest) = s ++ (separator ++ join separator (t ∷ rest))

collect_each : List (Text × Text) → Headers → Headers
collect_each [] h = h
collect_each ((key, value) ∷ rest) h = collect_each rest (put_header (to_lower key) value h)

collect_named : (Text → Option Text) → List Text → Headers → Headers
collect_named get [] h = h
collect_named get (name ∷ names) h = collect_named get names (elim (get name) [
  | none ↦ h
  | some value ↦ if nonempty value then put_header name value h else h
])

collect_plain : List (Text × HeaderValue) → Headers → Headers
collect_plain [] h = h
collect_plain ((key, absent) ∷ rest) h = collect_plain rest h
collect_plain ((key, one value) ∷ rest) h = collect_plain rest (put_header (to_lower key) value h)
collect_plain ((key, many values) ∷ rest) h =
    collect_plain rest (put_header (to_lower key) (join (lit ", ") values) h)

unfoldable pub headers_to_record : Option FetchHeaders → Headers
unfolding collect_each collect_named collect_plain put_header join to_lower
headers_to_record none = []
headers_to_record (some (for_each pairs)) = collect_each pairs []
headers_to_record (some (getter get)) =
    collect_named get (request_id_headers ++ lit "retry-after" ∷ []) []
headers_to_record (some (plain entries)) = collect_plain entries []

-- The first name with a value that is not empty.
first_header : List Text → Headers → Option Text
first_header [] h = none
first_header (name ∷ names) h =
    let rest = first_header names h in
    elim (header name h) [ none ↦ rest | some value ↦ if nonempty value then some value else rest ]

unfoldable pub request_id_from : Headers → Option Text
unfolding first_header header
request_id_from = first_header request_id_headers

unfoldable pub last_response_from : Text → Headers → Option Text → ℕ → LastResponse
last_response_from api_version h key status = record {
  api_version = api_version;
  headers = h;
  idempotency_key = key;
  request_id = request_id_from h;
  status = status;
}
