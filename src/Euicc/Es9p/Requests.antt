-- ===== src/Euicc/Es9p/Requests.antt =====
-- The object of a request is read back by the parser of the answers.
use mu5250_open_ui.Base.{
  ℕ, suc, ◌≡◌, refl, sym, ap, ◌∙◌, false, Option, none, some, List, [], ◌∷◌, ◌++◌, append_assoc,
  arith,
}
use mu5250_open_ui.Euicc.Es9p.Json.{Json, str, obj, other, Members, nil, member, push, c_bytes}
use mu5250_open_ui.Euicc.Es9p.Strings.{print_string, string}
use mu5250_open_ui.Euicc.Es9p.Parser.{
  Frame, object, value_at, has_value, starts_with, at_byte, skip_whitespace, member_name,
  open_object, step_value, next_item, continue_frame, step_close, run, beginning, parse, named,
}
use mu5250_open_ui.Euicc.Es9p.Exchange.{print_value, print_member, print_others, print_object}
use mu5250_open_ui.Euicc.Es9p.RoundTrip.{string-print_string}
use mu5250_open_ui.Euicc.Es9p.Nonzero.{c_bytes_self, print_object-IsNonzero}
use mu5250_open_ui.Euicc.Es9p.Termination.{parse_of_run}

-- What a printed value is read back as.
abbrev value_of : Option (List ℕ) → Json
value_of none = other
value_of (some v) = str (c_bytes v)

skip_whitespace-quote : (p : List ℕ) → skip_whitespace (34 ∷ p) ≡ 34 ∷ p
unfolding skip_whitespace
skip_whitespace-quote p = refl

skip_whitespace-print_string :
    (v rest : List ℕ) → skip_whitespace (print_string v ++ rest) ≡ print_string v ++ rest
unfolding print_string
skip_whitespace-print_string v rest = skip_whitespace-quote _

member_name-quoted :
    (name p rest : List ℕ)
    → string p ≡ some (name, b':' ∷ rest)
    → member_name (34 ∷ p) ≡ some (name, skip_whitespace rest)
unfolding member_name
member_name-quoted name p rest h = rw h (unfold skip_whitespace in refl)

member_name-print_string :
    (name rest : List ℕ)
    → member_name (print_string name ++ (b':' ∷ rest)) ≡ some (name, skip_whitespace rest)
unfolding print_string
member_name-print_string name rest =
    member_name-quoted name _ rest (unfold print_string in string-print_string name (b':' ∷ rest))

step_value-quoted :
    (v p rest : List ℕ) (stack : List Frame)
    → string p ≡ some (v, rest)
    → step_value (34 ∷ p) stack ≡ has_value (str v) rest stack
unfolding step_value starts_with
step_value-quoted v p rest stack h = rw h

step_value-print_value :
    (o : Option (List ℕ)) (rest : List ℕ) (stack : List Frame)
    → step_value (skip_whitespace (print_value o ++ rest)) stack ≡ has_value (value_of o) rest stack
unfolding print_string
step_value-print_value none rest stack = unfold step_value skip_whitespace starts_with in refl
step_value-print_value (some v) rest stack =
    rw (skip_whitespace-print_string (c_bytes v) rest)
      (step_value-quoted (c_bytes v) _ rest stack (string-print_string (c_bytes v) rest))

abbrev Entry : Type 0
Entry = List ℕ × Option (List ℕ)

-- The members in order, each name and value up to its first NUL.
pub members_of : List Entry → Members
members_of [] = nil
members_of ((name, o) ∷ ms) = member (c_bytes name) (value_of o) (members_of ms)

-- The members behind those that have been read.
followed_by : Members → List Entry → Members
followed_by acc [] = acc
followed_by acc ((name, o) ∷ ms) = followed_by (push acc (c_bytes name) (value_of o)) ms

joined : Members → Members → Members
joined nil ms = ms
joined (member n v acc) ms = member n v (joined acc ms)

joined-push :
    (acc : Members) (n : List ℕ) (v : Json) (ms : Members)
    → joined (push acc n v) ms ≡ joined acc (member n v ms)
unfolding joined push
joined-push nil n v ms = refl
joined-push (member m w acc) n v ms = ap (member m w) (joined-push acc n v ms)

joined-nil : (acc : Members) → joined acc nil ≡ acc
unfolding joined
joined-nil nil = refl
joined-nil (member m w acc) = ap (member m w) (joined-nil acc)

followed_by-members_of :
    (acc : Members) (ms : List Entry) → followed_by acc ms ≡ joined acc (members_of ms)
unfolding followed_by members_of
followed_by-members_of acc [] = sym (joined-nil acc)
followed_by-members_of acc ((name, o) ∷ ms) =
    followed_by-members_of (push acc (c_bytes name) (value_of o)) ms
    ∙ joined-push acc (c_bytes name) (value_of o) (members_of ms)

member_name-print_member :
    (name : List ℕ) (o : Option (List ℕ)) (rest : List ℕ)
    → member_name (print_member name o ++ rest)
      ≡ some (c_bytes name, skip_whitespace (print_value o ++ rest))
unfolding print_member
member_name-print_member name o rest =
    rw append_assoc (member_name-print_string (c_bytes name) (print_value o ++ rest))

skip_whitespace-print_member :
    (name : List ℕ) (o : Option (List ℕ)) (rest : List ℕ)
    → skip_whitespace (print_member name o ++ rest) ≡ print_member name o ++ rest
unfolding print_member
skip_whitespace-print_member name o rest =
    rw append_assoc (skip_whitespace-print_string (c_bytes name) (b':' ∷ (print_value o ++ rest)))

-- One turn for each value, one for each container it goes to, and one for the end.
rounds : List Entry → ℕ
rounds [] = 3
rounds (m ∷ ms) = suc (suc (rounds ms))

abbrev inside : Members → List ℕ → List Frame
inside acc name = object (some acc) name ∷ []

step_close-end :
    (acc : Members) (name : List ℕ) (value : Json)
    → step_close value (b'}' ∷ []) (inside acc name) ≡ has_value (obj (push acc name value)) [] []
unfolding step_close
step_close-end acc name value = refl

continue_frame-comma :
    (p q next : List ℕ) (rest : List ℕ) (members : Members)
    → skip_whitespace p ≡ q
    → member_name q ≡ some (next, rest)
    → continue_frame (b',' ∷ p) (object (some members) []) [] ≡ value_at rest (inside members next)
continue_frame-comma p q next rest members h k =
    unfold continue_frame in rw h (unfold next_item in rw k)

step_close-comma :
    (ms : List Entry) (acc : Members) (name next : List ℕ) (o : Option (List ℕ)) (value : Json)
    → step_close value (print_others ((next, o) ∷ ms) ++ (b'}' ∷ [])) (inside acc name)
      ≡ value_at
          (skip_whitespace (print_value o ++ (print_others ms ++ (b'}' ∷ []))))
          (inside (push acc name value) (c_bytes next))
step_close-comma ms acc name next o value =
    let rest = print_others ms ++ (b'}' ∷ []) in
    unfold print_others step_close in
    rw append_assoc (
      continue_frame-comma (print_member next o ++ rest) (print_member next o ++ rest)
        (c_bytes next) _ (push acc name value) (skip_whitespace-print_member next o rest)
        (member_name-print_member next o rest))

run-value :
    (fuel : ℕ) (o : Option (List ℕ)) (rest : List ℕ) (stack : List Frame)
    → run (suc fuel) (value_at (skip_whitespace (print_value o ++ rest)) stack)
      ≡ run fuel (has_value (value_of o) rest stack)
unfolding run
run-value fuel o rest stack = ap (run fuel) (step_value-print_value o rest stack)

run-close :
    (fuel : ℕ) (value : Json) (p : List ℕ) (stack : List Frame)
    → run (suc fuel) (has_value value p stack) ≡ run fuel (step_close value p stack)
unfolding run
run-close fuel value p stack = refl

run-root : (value : Json) → run 1 (has_value value [] []) ≡ some (some value)
unfolding run step_close
run-root value = refl

-- From the value of a member on, the object is read to its end.
run-print_others :
    (ms : List Entry) (acc : Members) (name : List ℕ) (o : Option (List ℕ))
    → run (rounds ms) (
        value_at
          (skip_whitespace (print_value o ++ (print_others ms ++ (b'}' ∷ []))))
          (inside acc name))
      ≡ some (some (obj (followed_by (push acc name (value_of o)) ms)))
unfolding rounds followed_by
run-print_others [] acc name o =
    run-value 2 o (print_others [] ++ (b'}' ∷ [])) (inside acc name)
    ∙ run-close 1 (value_of o) (print_others [] ++ (b'}' ∷ [])) (inside acc name)
    ∙ unfold print_others in
      ap (run 1) (step_close-end acc name (value_of o))
      ∙ run-root (obj (push acc name (value_of o)))
run-print_others ((next, p) ∷ ms) acc name o =
    run-value (suc (rounds ms)) o _ (inside acc name)
    ∙ run-close (rounds ms) (value_of o) _ (inside acc name)
    ∙ ap (run (rounds ms)) (step_close-comma ms acc name next p (value_of o))
    ∙ run-print_others ms (push acc name (value_of o)) (c_bytes next) p

-- The first turn, at the opening brace.
open_object-members :
    (p : List ℕ)
    → skip_whitespace p ≡ p
    → at_byte b'}' p ≡ false
    → open_object p [] ≡ named (some nil) [] (member_name p)
unfolding open_object
open_object-members p h k = rw h (rw k)

at_byte-print_member :
    (name : List ℕ) (o : Option (List ℕ)) (rest : List ℕ)
    → at_byte b'}' (print_member name o ++ rest) ≡ false
unfolding print_member print_string
at_byte-print_member name o rest = refl

step_value-object : (p : List ℕ) → step_value (b'{' ∷ p) [] ≡ open_object p []
unfolding step_value starts_with
step_value-object p = refl

step_value-print_object :
    (name : List ℕ) (o : Option (List ℕ)) (ms : List Entry)
    → step_value (print_object ((name, o) ∷ ms)) []
      ≡ value_at
          (skip_whitespace (print_value o ++ (print_others ms ++ (b'}' ∷ []))))
          (inside nil (c_bytes name))
unfolding print_object
step_value-print_object name o ms =
    let rest = print_others ms ++ (b'}' ∷ []) in
    step_value-object (print_member name o ++ rest)
    ∙ open_object-members (print_member name o ++ rest) (skip_whitespace-print_member name o rest)
        (at_byte-print_member name o rest)
    ∙ ap (named (some nil) []) (member_name-print_member name o rest)

beginning-brace : (p : List ℕ) → c_bytes (b'{' ∷ p) ≡ b'{' ∷ p → beginning (b'{' ∷ p) ≡ b'{' ∷ p
unfolding beginning starts_with skip_whitespace
beginning-brace p h = rw h

beginning-print_object : (ms : List Entry) → beginning (print_object ms) ≡ print_object ms
unfolding print_object
beginning-print_object [] = beginning-brace _ (c_bytes_self _ (omega arith))
beginning-print_object ((name, o) ∷ ms) =
    beginning-brace _ (c_bytes_self _ (print_object-IsNonzero ((name, o) ∷ ms)))

object_rounds : List Entry → ℕ
object_rounds [] = 2
object_rounds (m ∷ ms) = suc (rounds ms)

run-at :
    (fuel : ℕ) (p : List ℕ) (stack : List Frame)
    → run (suc fuel) (value_at p stack) ≡ run fuel (step_value p stack)
unfolding run
run-at fuel p stack = refl

members_of-followed_by : (ms : List Entry) → followed_by nil ms ≡ members_of ms
unfolding joined
members_of-followed_by ms = followed_by-members_of nil ms

run-print_object :
    (ms : List Entry)
    → run (object_rounds ms) (value_at (print_object ms) []) ≡ some (some (obj (members_of ms)))
unfolding object_rounds push followed_by
run-print_object [] =
    unfold run step_value step_close members_of print_object open_object skip_whitespace
      starts_with in
    refl
run-print_object ((name, o) ∷ ms) =
    run-at (rounds ms) (print_object ((name, o) ∷ ms)) []
    ∙ ap (run (rounds ms)) (step_value-print_object name o ms)
    ∙ run-print_others ms nil (c_bytes name) o
    ∙ ap (λ read. some (some (obj read))) (members_of-followed_by ((name, o) ∷ ms))

-- The parser of the answers reads the object of any request back: its members in order, each with its
-- name and its value up to the first NUL, and a value that is no string as such.
pub parse-print_object : (ms : List Entry) → parse (print_object ms) ≡ some (obj (members_of ms))
parse-print_object ms =
    parse_of_run (object_rounds ms) (print_object ms)
      (rw (beginning-print_object ms) (run-print_object ms))
