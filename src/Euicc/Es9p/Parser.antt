-- ===== src/Euicc/Es9p/Parser.antt =====
-- euicc/src/es9p.rs: the parser of JSON, as a state machine with a stack of open containers. The top
-- of the stack is the head of the list; a position in the text is the list of the bytes left there.
use mu5250_open_ui.Base.{
  ℕ, zero, suc, ◌+◌, Bool, true, false, ◌&&◌, ◌||◌, Option, none, some, List, [], ◌∷◌, length, drop,
  ltb, leb, ◌==◌, if◌then◌else◌,
}
use mu5250_open_ui.Base.Options.{◌>>=◌}
use mu5250_open_ui.Base.Texts.{codes}
use mu5250_open_ui.Euicc.Es9p.Json.{Json, str, obj, other, Members, nil, push, c_bytes}
use mu5250_open_ui.Euicc.Es9p.Strings.{string}
use mu5250_open_ui.Euicc.Es9p.Numbers.{is_digit, number}

abbrev pub nesting_limit : ℕ
nesting_limit = 1000

abbrev pub keep_depth : ℕ
keep_depth = 4

pub data Frame : Type 0 where
  array : Frame
  object : Option Members → List ℕ → Frame

-- The state of the two loops: a value starts here, or a value has been read and goes to its container.
pub data Progress : Type 0 where
  finished : Option Json → Progress
  value_at : List ℕ → List Frame → Progress
  has_value : Json → List ℕ → List Frame → Progress

unfoldable pub starts_with : List ℕ → List ℕ → Bool
starts_with [] s = true
starts_with (x ∷ xs) [] = false
starts_with (x ∷ xs) (b ∷ s) = x == b && starts_with xs s

unfoldable pub skip_whitespace : List ℕ → List ℕ
skip_whitespace [] = []
skip_whitespace (b ∷ p) = let rest = skip_whitespace p in if leb b 32 then rest else b ∷ p

-- `p.peek() == Some(c)`
abbrev pub at_byte : ℕ → List ℕ → Bool
at_byte c [] = false
at_byte c (b ∷ p) = b == c

-- A member name, the `:` after it and the whitespace before the value.
unfoldable pub member_name : List ℕ → Option (List ℕ × List ℕ)
unfolding skip_whitespace
member_name p =
    if at_byte 34 p
    then (string (drop 1 p) >>= λ r.
        let q = skip_whitespace r.1 in
        if at_byte b':' q then some (r.0, skip_whitespace (drop 1 q)) else none)
    else none

-- At `[`, behind it.
unfoldable pub open_array : List ℕ → List Frame → Progress
unfolding skip_whitespace
open_array p stack =
    let q = skip_whitespace p in
    if leb nesting_limit (length stack)
    then finished none
    else if at_byte b']' q
    then has_value other (drop 1 q) stack
    else value_at q (array ∷ stack)

-- The value of a member starts, unless its name is refused.
abbrev pub named : Option Members → List Frame → Option (List ℕ × List ℕ) → Progress
named members stack none = finished none
named members stack (some (name, p)) = value_at p (object members name ∷ stack)

abbrev pub kept : List Frame → Bool
kept stack = ltb (length stack) keep_depth

-- At `{`, behind it.
unfoldable pub open_object : List ℕ → List Frame → Progress
unfolding skip_whitespace member_name
open_object p stack =
    let q = skip_whitespace p in
    if leb nesting_limit (length stack)
    then finished none
    else if at_byte b'}' q
    then has_value (if kept stack then obj nil else other) (drop 1 q) stack
    else named (if kept stack then some nil else none) stack (member_name q)

abbrev pub string_value : Option (List ℕ × List ℕ) → List Frame → Progress
string_value none stack = finished none
string_value (some (s, p)) stack = has_value (str s) p stack

abbrev pub number_value : Option (List ℕ) → List Frame → Progress
number_value none stack = finished none
number_value (some p) stack = has_value other p stack

-- One value starts here.
unfoldable pub step_value : List ℕ → List Frame → Progress
unfolding starts_with open_array open_object
step_value [] stack = finished none
step_value (b ∷ p) stack =
    if starts_with (codes "null") (b ∷ p)
    then has_value other (drop 3 p) stack
    else if starts_with (codes "false") (b ∷ p)
    then has_value other (drop 4 p) stack
    else if starts_with (codes "true") (b ∷ p)
    then has_value other (drop 3 p) stack
    else if b == 34
    then string_value (string p) stack
    else if b == b'-' || is_digit b
    then number_value (number (b ∷ p)) stack
    else if b == b'['
    then open_array p stack
    else if b == b'{'
    then open_object p stack
    else finished none

-- `members.push((take(name), value))`, where the container is kept.
abbrev pub put : Json → Frame → Frame
put value (object (some members) name) = object (some (push members name value)) []
put value (object none name) = object none name
put value array = array

abbrev pub closing : Frame → ℕ
closing array = b']'
closing (object members name) = b'}'

abbrev pub contents : Frame → Json
contents array = other
contents (object (some members) name) = obj members
contents (object none name) = other

-- Behind a comma.
unfoldable pub next_item : List ℕ → Frame → List Frame → Progress
unfolding member_name
next_item p array stack = value_at p (array ∷ stack)
next_item p (object members name) stack = named members stack (member_name p)

-- The container `frame` behind one of its values.
unfoldable pub continue_frame : List ℕ → Frame → List Frame → Progress
unfolding next_item skip_whitespace
continue_frame [] frame stack = finished none
continue_frame (c ∷ p) frame stack =
    if c == b','
    then next_item (skip_whitespace p) frame stack
    else if c == closing frame
    then has_value (contents frame) p stack
    else finished none

-- A finished value goes to its container.
unfoldable pub step_close : Json → List ℕ → List Frame → Progress
unfolding continue_frame skip_whitespace
step_close value p [] = finished (some value)
step_close value p (frame ∷ stack) = continue_frame (skip_whitespace p) (put value frame) stack

unfoldable pub step : Progress → Progress
unfolding step_value step_close
step (finished r) = finished r
step (value_at p stack) = step_value p stack
step (has_value value p stack) = step_close value p stack

-- `none` means that the fuel ran out.
unfoldable pub run : ℕ → Progress → Option (Option Json)
unfolding step
run zero (finished r) = some r
run zero (value_at p stack) = none
run zero (has_value value p stack) = none
run (suc fuel) (finished r) = some r
run (suc fuel) (value_at p stack) = run fuel (step_value p stack)
run (suc fuel) (has_value value p stack) = run fuel (step_close value p stack)

abbrev pub byte_order_mark : List ℕ
byte_order_mark = 0xef ∷ (0xbb ∷ (0xbf ∷ []))

-- Where the first value starts.
unfoldable pub beginning : List ℕ → List ℕ
unfolding c_bytes starts_with skip_whitespace
beginning input =
    let s = c_bytes input in skip_whitespace (if starts_with byte_order_mark s then drop 3 s else s)

-- What a run gave. Its fuel does not run out: each turn takes a byte at least, but the last.
abbrev pub settled : Option (Option Json) → Option Json
settled none = none
settled (some r) = r

unfoldable pub parse : List ℕ → Option Json
unfolding beginning run
parse input = let p = beginning input in settled (run (length p + 1) (value_at p []))
