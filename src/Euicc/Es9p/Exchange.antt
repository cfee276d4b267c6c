-- ===== src/Euicc/Es9p/Exchange.antt =====
-- euicc/src/es9p.rs: one exchange with the server, over the trait `Http`. A call takes the world `W`
-- behind the trait and returns it with what it gives.
use mu5250_open_ui.Base.{
  ℕ, ◌-◌, ◌/◌, ◌^◌, Option, none, some, String, List, [], ◌∷◌, ◌++◌, ltb, ◌==◌, if◌then◌else◌,
}
use mu5250_open_ui.Base.Results.{Result, ok, err, and_then, map_err}
use mu5250_open_ui.Base.Texts.{codes, decimal}
use mu5250_open_ui.Euicc.Es9p.Json.{Json, str, obj, other, c_bytes, get}
use mu5250_open_ui.Euicc.Es9p.Parser.{parse}
use mu5250_open_ui.Euicc.Es9p.Status.{Es9pStatus, Status, new, apply, into_error}
use mu5250_open_ui.Euicc.Es9p.Strings.{print_string}

-- The trait `Http`: `post` takes the address, the headers and the body, and gives the status and the
-- body of the answer, or the text of a failure.
pub record Http (W : Type 0) : Type 0 where
  pub post : List ℕ → List String → List ℕ → W → Result (List ℕ) (ℕ × List ℕ) × W

abbrev pub headers : List String
headers =
    "User-Agent: gsma-rsp-lpad"
    ∷ ("X-Admin-Protocol: gsma/rsp/v2.2.2" ∷ ("Content-Type: application/json" ∷ []))

abbrev pub print_value : Option (List ℕ) → List ℕ
print_value none = codes "null"
print_value (some v) = print_string (c_bytes v)

unfoldable pub print_member : List ℕ → Option (List ℕ) → List ℕ
unfolding c_bytes print_string
print_member name value = print_string (c_bytes name) ++ (b':' ∷ print_value value)

-- The members behind the first one.
unfoldable pub print_others : List (List ℕ × Option (List ℕ)) → List ℕ
unfolding print_member
print_others [] = []
print_others ((name, value) ∷ members) = b',' ∷ (print_member name value ++ print_others members)

unfoldable pub print_object : List (List ℕ × Option (List ℕ)) → List ℕ
unfolding print_others print_member
print_object [] = b'{' ∷ (b'}' ∷ [])
print_object ((name, value) ∷ members) =
    b'{' ∷ (print_member name value ++ (print_others members ++ (b'}' ∷ [])))

-- `(code as i32).to_string()`, of a `u32`.
unfoldable pub shown_status : ℕ → List ℕ
unfolding decimal
shown_status code = if ltb code (2 ^ 31) then decimal code else b'-' ∷ decimal (2 ^ 32 - code)

abbrev pub transport_failure : List ℕ → Es9pStatus
transport_failure e = record (into_error (new (codes "unknown") (codes "HTTP transport failed"))) {
  transport_error = some e;
}

-- The answer, if its status is 2xx.
unfoldable pub accepted : Result (List ℕ) (ℕ × List ℕ) → Result Es9pStatus (List ℕ)
unfolding shown_status into_error new
accepted (err e) = err (transport_failure e)
accepted (ok (code, body)) =
    if code / 100 == 2
    then ok body
    else err (into_error (new (shown_status code) (codes "HTTP status code error")))

-- The values of as many members as there are keys.
abbrev pub Values : List String → Type 0
Values [] = Unit {0}
Values (key ∷ keys) = List ℕ × Values keys

-- `Err(status)` unless the member is a string.
abbrev pub require_string : Status → Option Json → Result Status (List ℕ)
require_string s (some (str v)) = ok (c_bytes v)
require_string s (some (obj members)) = err s
require_string s (some other) = err s
require_string s none = err s

unfoldable pub read_members : Json → Status → (keys : List String) → Result Status (Values keys)
unfolding get c_bytes
read_members root s [] = ok tt
read_members root s (key ∷ keys) =
    and_then (require_string s (get (codes key) root))
      (λ v. and_then (read_members root s keys) (λ vs. ok (v, vs)))

abbrev pub ok_or_missing : String → Option Json → Result Status Json
ok_or_missing name none = err (new (codes name) (codes "Critical object missing"))
ok_or_missing name (some j) = ok j

-- The status that a missing member is reported with.
abbrev pub reported_status : Option Json → Status
reported_status none = new (codes "unknown") (codes "unknown")
reported_status (some reported) = apply (new (codes "unknown") (codes "unknown")) reported

-- The members of a root that is an object.
unfoldable pub read_root : Json → (keys : List String) → Result Status (Values keys)
unfolding read_members get apply new
read_root (obj members) keys =
    and_then (ok_or_missing "header" (get (codes "header") (obj members))) (λ header.
      and_then
        (ok_or_missing "functionExecutionStatus" (get (codes "functionExecutionStatus") header))
        (λ execution.
          read_members (obj members) (reported_status (get (codes "statusCodeData") execution))
            keys))
read_root (str v) keys = err (new (codes "root") (codes "Not Object"))
read_root other keys = err (new (codes "root") (codes "Not Object"))

-- What `parse` gave.
unfoldable pub read_parsed : Option Json → (keys : List String) → Result Status (Values keys)
unfolding read_root new
read_parsed none keys = err (new (codes "root") (codes "Not JSON"))
read_parsed (some root) keys = read_root root keys

unfoldable pub read_response : List ℕ → (keys : List String) → Result Status (Values keys)
unfolding read_parsed parse
read_response body keys = read_parsed (parse body) keys

module _ {W : Type 0} (http : Http W) where
  unfoldable pub exchange :
      List ℕ → String → List (List ℕ × Option (List ℕ)) → W → Result Es9pStatus (List ℕ) × W
  unfolding accepted print_object c_bytes
  exchange server_address path request w =
      let url = codes "https://" ++ (c_bytes server_address ++ codes path) in
      let (r, w') = http.post url headers (print_object request) w in (accepted r, w')

  unfoldable pub exchange_json :
      List ℕ
      → String
      → List (List ℕ × Option (List ℕ))
      → (keys : List String) → W
      → Result Es9pStatus (Values keys) × W
  unfolding exchange read_response into_error
  exchange_json server_address path request keys w =
      let (r, w') = exchange server_address path request w in
      (and_then r (λ body. map_err into_error (read_response body keys)), w')
