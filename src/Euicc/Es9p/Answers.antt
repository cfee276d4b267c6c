-- ===== src/Euicc/Es9p/Answers.antt =====
-- Which answers of the server a call accepts, and what it reads in them.
use mu5250_open_ui.Base.{
  ℕ, ◌/◌, ◌≤◌, ◌<◌, ◌≡◌, ◌↔◌, refl, sym, ap, ◌∙◌, Option, none, some, String, List, [], ◌∷◌, ◌++◌,
  ◌==◌, ==_iff, arith, inl, inr, Bool-cases, Option-cases,
}
use mathlib.Core.Path.{subst}
use mu5250_open_ui.Base.Results.{Result, ok, err, map_err, and_then-eq-ok}
use mu5250_open_ui.Base.Texts.{codes}
use mu5250_open_ui.Euicc.Es9p.Json.{Json, str, obj, other, Members, c_bytes, get}
use mu5250_open_ui.Euicc.Es9p.Parser.{parse}
use mu5250_open_ui.Euicc.Es9p.Status.{Status, into_error}
use mu5250_open_ui.Euicc.Es9p.Exchange.{
  Http, headers, print_object, accepted, Values, require_string, read_members, ok_or_missing,
  read_root, read_parsed, read_response, exchange, exchange_json,
}

-- The first member with the name of each key is a string, and its value is that string up to its
-- first NUL.
abbrev pub Found : Json → (keys : List String) → Values keys → Type 0
Found root [] vs = Unit {0}
Found root (key ∷ keys) vs =
    ((v : List ℕ) × (get (codes key) root ≡ some (str v)) × (vs.0 ≡ c_bytes v))
    × Found root keys vs.1

-- An object with the header that the protocol asks for, and the members that the call reads.
pub record IsAnswer (body : List ℕ) (keys : List String) (vs : Values keys) : Type 0 where
  pub members : Members
  pub parsed : parse body ≡ some (obj members)
  pub header : Json
  pub has_header : get (codes "header") (obj members) ≡ some header
  pub execution : Json
  pub has_execution : get (codes "functionExecutionStatus") header ≡ some execution
  pub found : Found (obj members) keys vs

require_string-eq-ok :
    (s : Status) (o : Option Json) {x : List ℕ}
    → require_string s o ≡ ok x
    → (v : List ℕ) × (o ≡ some (str v)) × (x ≡ c_bytes v)
require_string-eq-ok s none h = cc
require_string-eq-ok s (some (str v)) h = (v, refl, cc)
require_string-eq-ok s (some (obj members)) h = cc
require_string-eq-ok s (some other) h = cc

ok-injective : {A : Type 0} {a b : A} → ◌≡◌ {A = Result Status A} (ok a) (ok b) → a ≡ b
ok-injective h = cc

ok_or_missing-eq-ok :
    (name : String) (o : Option Json) {j : Json} → ok_or_missing name o ≡ ok j → o ≡ some j
ok_or_missing-eq-ok name none h = cc
ok_or_missing-eq-ok name (some j) h = cc

read_members-Found :
    (root : Json) (s : Status) (keys : List String) (vs : Values keys)
    → read_members root s keys ≡ ok vs
    → Found root keys vs
unfolding read_members
read_members-Found root s [] vs h = tt
read_members-Found root s (key ∷ keys) vs h =
    let (x, first, rest) = and_then-eq-ok (require_string s (get (codes key) root)) _ h in
    let (ys, others, same) = and_then-eq-ok (read_members root s keys) _ rest in
    let (v, is_string, read) = require_string-eq-ok s (get (codes key) root) first in
    let pair : (x, ys) ≡ vs = ok-injective same in
    (
      (v, is_string, sym (ap (λ p. p.0) pair) ∙ read),
      subst (λ t. Found root keys t) (ap (λ p. p.1) pair)
          (read_members-Found root s keys ys others),
    )

Found-read_members :
    (root : Json) (s : Status) (keys : List String) (vs : Values keys)
    → Found root keys vs
    → read_members root s keys ≡ ok vs
unfolding read_members
Found-read_members root s [] tt h = refl
Found-read_members root s (key ∷ keys) vs ((v, is_string, read), rest) =
    rw is_string (rw (Found-read_members root s keys vs.1 rest) (ap (λ t. ok (t, vs.1)) (sym read)))

module _ (keys : List String) (vs : Values keys) where
  read_root-IsAnswer :
      (body : List ℕ) (root : Json)
      → parse body ≡ some root
      → read_root root keys ≡ ok vs
      → IsAnswer body keys vs
  unfolding read_root
  read_root-IsAnswer body (obj members) e h =
      let (header, has_header, rest) =
        and_then-eq-ok (ok_or_missing "header" (get (codes "header") (obj members))) _ h in
      let (execution, has_execution, read) =
        and_then-eq-ok
          (ok_or_missing "functionExecutionStatus" (get (codes "functionExecutionStatus") header)) _
          rest in
      record {
        members = members;
        parsed = e;
        header = header;
        has_header = ok_or_missing-eq-ok "header" _ has_header;
        execution = execution;
        has_execution = ok_or_missing-eq-ok "functionExecutionStatus" _ has_execution;
        found = read_members-Found (obj members) _ keys vs read;
      }
  read_root-IsAnswer body (str v) e h = cc
  read_root-IsAnswer body other e h = cc

  IsAnswer-read_root :
      {body : List ℕ} (a : IsAnswer body keys vs) → read_root (obj a.members) keys ≡ ok vs
  unfolding read_root
  IsAnswer-read_root a =
      rw a.has_header (rw a.has_execution (Found-read_members (obj a.members) _ keys vs a.found))

  -- The values of an answer are read exactly where it is a JSON object with the header of the protocol
  -- in which the first member of each name asked for, in any case, is a string: they are these strings,
  -- each up to its first NUL.
  pub read_response-values :
      (body : List ℕ) → (read_response body keys ≡ ok vs) ↔ IsAnswer body keys vs
  unfolding read_response read_parsed
  read_response-values body = (forward, back)
    where
      forward : read_response body keys ≡ ok vs → IsAnswer body keys vs
      forward h = elim (Option-cases (parse body)) [
        | inl e ↦ cc (rw e at h)
        | inr (root, e) ↦ read_root-IsAnswer body root e (rw e at h)
      ]

      back : IsAnswer body keys vs → read_response body keys ≡ ok vs
      back a = rw a.parsed (IsAnswer-read_root a)

-- The request of a call, as it is posted.
abbrev pub posted :
    {W : Type 0}
    → Http W
    → List ℕ
    → String
    → List (List ℕ × Option (List ℕ))
    → W
    → Result (List ℕ) (ℕ × List ℕ) × W
posted http server_address path request =
    http.post (codes "https://" ++ (c_bytes server_address ++ codes path)) headers
      (print_object request)

-- The server's answer has a status of 2xx, and holds the values.
pub record IsAccepted (keys : List String) (vs : Values keys) (r : Result (List ℕ) (ℕ × List ℕ))
    : Type 0 where
  pub code : ℕ
  pub body : List ℕ
  pub answered : r ≡ ok (code, body)
  pub above : 200 ≤ code
  pub below : code < 300
  pub answer : IsAnswer body keys vs

accepted-eq-ok :
    (r : Result (List ℕ) (ℕ × List ℕ)) {body : List ℕ}
    → accepted r ≡ ok body
    → (code : ℕ) × (r ≡ ok (code, body)) × (code / 100 ≡ 2)
unfolding accepted
accepted-eq-ok (err e) h = cc
accepted-eq-ok (ok (code, text)) {body} h = elim (Bool-cases (code / 100 == 2)) [
  | inl t ↦
      let same : text ≡ body = cc (rw t at h) in
      (code, ap (λ b. ok (code, b)) same, (==_iff (code / 100) 2).0 t)
  | inr f ↦ cc (rw f at h)
]

hundreds : (code : ℕ) → 200 ≤ code → code < 300 → code / 100 ≡ 2
hundreds code h k = omega arith

map_err-eq-ok : {A : Type 0} (r : Result Status A) {a : A} → map_err into_error r ≡ ok a → r ≡ ok a
map_err-eq-ok (ok b) h = cc
map_err-eq-ok (err e) h = cc

module _ {W : Type 0} (http : Http W) (keys : List String) (vs : Values keys) where
  -- A call posts its request once, and gives values exactly where the server's answer has a status of
  -- 200 to 299 and is an answer with these values; it leaves the world that the request left.
  pub exchange_json-answered :
      (server_address : List ℕ) (path : String) (request : List (List ℕ × Option (List ℕ))) (w : W)
      → (((exchange_json http server_address path request keys w).0 ≡ ok vs)
          ↔ IsAccepted keys vs (posted http server_address path request w).0)
        × ((exchange_json http server_address path request keys w).1
            ≡ (posted http server_address path request w).1)
  unfolding exchange_json exchange
  exchange_json-answered server_address path request w = ((forward, back), refl)
    where
      r : Result (List ℕ) (ℕ × List ℕ)
      r = (posted http server_address path request w).0

      forward :
          (exchange_json http server_address path request keys w).0 ≡ ok vs → IsAccepted keys vs r
      forward h =
          let (body, fine, rest) = and_then-eq-ok (accepted r) _ h in
          let (code, answered, in_range) = accepted-eq-ok r fine in
          record {
            code = code;
            body = body;
            answered = answered;
            above = omega arith;
            below = omega arith;
            answer =
                (read_response-values keys vs body).0
                  (map_err-eq-ok (read_response body keys) rest);
          }

      back :
          IsAccepted keys vs r → (exchange_json http server_address path request keys w).0 ≡ ok vs
      back a = rw a.answered (
          unfold accepted in
          rw ((==_iff (a.code / 100) 2).1 (hundreds a.code a.above a.below))
            (rw ((read_response-values keys vs a.body).1 a.answer)))
