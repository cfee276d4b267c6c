-- ===== src/Euicc/Es9p/Tests.antt =====
-- Witnesses and tests of the exchanges with the server.
use mu5250_open_ui.Base.{
  ℕ, ◌+◌, ◌≡◌, ◌↔◌, refl, Option, none, some, List, [], ◌∷◌, ◌++◌, length, arith,
}
use mu5250_open_ui.Base.Results.{ok, err}
use mu5250_open_ui.Base.Strings.{str_eq}
use mu5250_open_ui.Base.Texts.{codes}
use mu5250_open_ui.Euicc.Es9p.Json.{str, obj, other, nil, member, push, get, same_name, c_bytes}
use mu5250_open_ui.Base.Utf8.{from_u32, encode_utf8}
use mu5250_open_ui.Euicc.Es9p.Numbers.{number}
use mu5250_open_ui.Euicc.Es9p.Strings.{string, token, hex4, find_end, escaped, escape_byte}
use mu5250_open_ui.Euicc.Es9p.Parser.{value_at, run, beginning, parse}
use mu5250_open_ui.Euicc.Es9p.Exchange.{Http, print_object, exchange_json}
use mu5250_open_ui.Euicc.Es9p.Status.{new, apply, into_error}
use mu5250_open_ui.Euicc.Es9p.Termination.{parse_total}
use mu5250_open_ui.Euicc.Es9p.Requests.{members_of, parse-print_object}
use mu5250_open_ui.Euicc.Es9p.Answers.{IsAccepted, exchange_json-answered}
use mu5250_open_ui.Euicc.Es9p.Fields.{subject_code_exceeds}

parse_nested :
    parse (codes " {\"a\" : [1, -2.5e3, {}], \"b\":\"x\\u00e9\\n\",\"c\":null} rest")
    ≡ some (
        obj (
          member (codes "a") other (
            member
              (codes "b")
              (str (b'x' ∷ (0xc3 ∷ (0xa9 ∷ (10 ∷ [])))))
              (member (codes "c") other nil))))
unfolding parse string token number hex4 from_u32 push encode_utf8
parse_nested = refl

parse_total_example :
    run (length (beginning (codes "[\"a\", {")) + 1) (value_at (beginning (codes "[\"a\", {")) [])
    ≡ some (parse (codes "[\"a\", {"))
parse_total_example = parse_total (codes "[\"a\", {")

abbrev request : List (List ℕ × Option (List ℕ))
request =
    (codes "smdpAddress", some (codes "a.b"))
    ∷ ((codes "x", some (34 ∷ (10 ∷ (1 ∷ (200 ∷ []))))) ∷ ((codes "y", none) ∷ []))

parse-print_object_example : parse (print_object request) ≡ some (obj (members_of request))
parse-print_object_example = parse-print_object request

request_printed :
    print_object request
    ≡ codes "{\"smdpAddress\":\"a.b\",\"x\":\"\\\"\\n\\u0001" ++ (200 ∷ codes "\",\"y\":null}")
unfolding print_object escaped escape_byte
request_printed = refl

-- A server that answers every request with the same text, and counts the requests.
abbrev answering : ℕ → List ℕ → Http ℕ
answering code body = record { post = λ url headers request n. (ok (code, body), n + 1) }

abbrev reply : List ℕ
reply =
    codes
      "{\"header\":{\"functionExecutionStatus\":{\"status\":\"Executed-Success\"}},\"TRANSACTIONID\":\"7F\"}"

exchange_json-answered_example :
    (((exchange_json (answering 200 reply) (codes "a.b") "/p" request ("transactionId" ∷ []) 3).0
        ≡ ok (codes "7F", tt))
      ↔ IsAccepted ("transactionId" ∷ []) (codes "7F", tt) (ok (200, reply)))
    × ((exchange_json (answering 200 reply) (codes "a.b") "/p" request ("transactionId" ∷ []) 3).1
        ≡ 4)
exchange_json-answered_example =
    exchange_json-answered (answering 200 reply) ("transactionId" ∷ []) (codes "7F", tt)
      (codes "a.b") "/p" request 3

reply_read :
    (exchange_json (answering 200 reply) (codes "a.b") "/p" request ("transactionId" ∷ []) 3).0
    ≡ ok (codes "7F", tt)
unfolding exchange_json string token find_end push same_name str_eq
reply_read = refl

status_shown :
    (exchange_json (answering 404 reply) (codes "a.b") "/p" request ("transactionId" ∷ []) 3).0
    ≡ err (into_error (new (codes "404") (codes "HTTP status code error")))
unfolding exchange_json
status_shown = refl

subject_code_exceeds_example :
    length
      (into_error (
        apply (new (codes "unknown") (codes "unknown")) (
          obj (
            member
              (codes "subjectCode")
              (str (codes "8.2.6.1" ++ (0xc3 ∷ (0xa9 ∷ []))))
              nil)))).subject_code
    ≡ 10
unfolding get same_name str_eq c_bytes
subject_code_exceeds_example =
    subject_code_exceeds (new (codes "unknown") (codes "unknown"))
      (obj (member (codes "subjectCode") (str (codes "8.2.6.1" ++ (0xc3 ∷ (0xa9 ∷ [])))) nil))
      (codes "8.2.6.1") (omega arith) refl refl
