-- ===== src/Euicc/Es9p/Termination.antt =====
-- The loops of the parser end: each turn takes a byte of the text at least, but the last.
use mu5250_open_ui.Base.{
  ℕ, zero, suc, ◌+◌, ◌≤◌, ◌<◌, ◌≡◌, refl, Bool, true, false, ◌||◌, Option, none, some, List, [],
  ◌∷◌, length, drop, length-drop, ◌==◌, arith, inl, inr, Bool-cases, Option-cases, if◌then◌else◌,
}
use mu5250_open_ui.Base.Texts.{codes}
use mu5250_open_ui.Base.Options.{>>=-eq-some}
use mu5250_open_ui.Euicc.Es9p.Json.{Json, other, Members}
use mu5250_open_ui.Euicc.Es9p.Strings.{find_end, string, unescape}
use mu5250_open_ui.Euicc.Es9p.Numbers.{is_digit, number, number_run, strtod_len}
use mu5250_open_ui.Euicc.Es9p.Parser.{
  Frame, array, object, Progress, finished, value_at, has_value, starts_with, skip_whitespace,
  member_name, open_array, open_object, step_value, put, next_item, continue_frame, step_close, run,
  beginning, parse, named, string_value, number_value,
}

pub skip_whitespace-le : (p : List ℕ) → length (skip_whitespace p) ≤ length p
unfolding skip_whitespace
skip_whitespace-le [] = omega arith
skip_whitespace-le (b ∷ p) = ground (arith, skip_whitespace-le p)

find_end-lt :
    (s : List ℕ) {content rest : List ℕ}
    → find_end s ≡ some (content, rest)
    → length rest < length s
unfolding find_end
find_end-lt [] h = cc
find_end-lt (b ∷ []) h = ground arith
find_end-lt (b ∷ (c ∷ s)) h = elim (Bool-cases (b == 34)) [
  | inl q ↦ ground arith
  | inr q ↦ elim (Bool-cases (b == 92)) [
    | inl e ↦
        let (r, found, same) = >>=-eq-some (find_end s) _ (rw (q, e) at h) in
        ground (arith, find_end-lt s found)
    | inr e ↦
        let (r, found, same) = >>=-eq-some (find_end (c ∷ s)) _ (rw (q, e) at h) in
        ground (arith, find_end-lt (c ∷ s) found)
  ]
]

pub string-lt : (s : List ℕ) {v rest : List ℕ} → string s ≡ some (v, rest) → length rest < length s
unfolding string
string-lt s h =
    let (r, found, out) = >>=-eq-some (find_end s) _ h in
    let (v, read, same) = >>=-eq-some (unescape 0 r.0) _ out in ground (arith, find_end-lt s found)

pub member_name-lt :
    (p : List ℕ) {name rest : List ℕ} → member_name p ≡ some (name, rest) → length rest < length p
unfolding member_name
member_name-lt [] h = cc
member_name-lt (b ∷ p) h = elim (Bool-cases (b == 34)) [
  | inl q ↦
      let (r, found, same) = >>=-eq-some (string p) _ (rw q at h) in
      ground (
        arith,
        string-lt p found,
        skip_whitespace-le r.1,
        skip_whitespace-le (drop 1 (skip_whitespace r.1)),
        length-drop 1 (skip_whitespace r.1),
      )
  | inr q ↦ cc (rw q at h)
]

number-lt :
    (b : ℕ) (p : List ℕ) {rest : List ℕ} → number (b ∷ p) ≡ some rest → length rest ≤ length p
unfolding number
number-lt b p h = let n = strtod_len (number_run (b ∷ p)) in ground (arith, length-drop n (b ∷ p))

-- What is left to read, with one turn more for the end.
abbrev pub size : Progress → ℕ
size (finished r) = 0
size (value_at p stack) = length p + 1
size (has_value value p stack) = length p + 1

named-lt :
    (members : Option Members) (stack : List Frame) (n : ℕ) (o : Option (List ℕ × List ℕ))
    → ((name rest : List ℕ) → o ≡ some (name, rest) → length rest < n)
    → size (named members stack o) < n + 1
named-lt members stack n none h = omega arith
named-lt members stack n (some (name, rest)) h = omega (arith, h name rest refl)

member_name-size :
    (members : Option Members) (stack : List Frame) (p : List ℕ)
    → size (named members stack (member_name p)) < length p + 1
member_name-size members stack p =
    named-lt members stack (length p) (member_name p) (λ name rest e. member_name-lt p e)

string-size :
    (stack : List Frame) (p : List ℕ) → size (string_value (string p) stack) < suc (length p) + 1
string-size stack p = elim (Option-cases (string p)) [
  | inl e ↦ rw e (omega arith)
  | inr (r, e) ↦ rw e (omega (arith, string-lt p e))
]

number-size :
    (stack : List Frame) (b : ℕ) (p : List ℕ)
    → size (number_value (number (b ∷ p)) stack) < suc (length p) + 1
number-size stack b p = elim (Option-cases (number (b ∷ p))) [
  | inl e ↦ rw e (omega arith)
  | inr (r, e) ↦ rw e (omega (arith, number-lt b p e))
]

open_array-size : (stack : List Frame) (p : List ℕ) → size (open_array p stack) < suc (length p) + 1
unfolding open_array
open_array-size stack p = ground (arith, skip_whitespace-le p, length-drop 1 (skip_whitespace p))

open_object-size :
    (stack : List Frame) (p : List ℕ) → size (open_object p stack) < suc (length p) + 1
unfolding open_object
open_object-size stack p = ground (
  arith,
  skip_whitespace-le p,
  length-drop 1 (skip_whitespace p),
  member_name-size (some Members.nil) stack (skip_whitespace p),
  member_name-size none stack (skip_whitespace p),
)

-- Progress that leaves less than `n`.
record IsBelow (n : ℕ) (s : Progress) : Type 0 where
  bound : size s < n

if-IsBelow :
    (test : Bool) {n : ℕ} {x y : Progress}
    → IsBelow n x
    → IsBelow n y
    → IsBelow n (if test then x else y)
if-IsBelow true h k = h
if-IsBelow false h k = k

drop-IsBelow :
    (n : ℕ) (p : List ℕ) (stack : List Frame)
    → IsBelow (suc (length p) + 1) (has_value other (drop n p) stack)
drop-IsBelow n p stack = record { bound = omega (arith, length-drop n p) }

end_IsBelow : (p : List ℕ) → IsBelow (suc (length p) + 1) (finished none)
end_IsBelow p = record { bound = omega arith }

step_value-IsBelow :
    (b : ℕ) (p : List ℕ) (stack : List Frame)
    → IsBelow (suc (length p) + 1) (step_value (b ∷ p) stack)
unfolding step_value
step_value-IsBelow b p stack =
    if-IsBelow (starts_with (codes "null") (b ∷ p)) (drop-IsBelow 3 p stack) (
      if-IsBelow (starts_with (codes "false") (b ∷ p)) (drop-IsBelow 4 p stack) (
        if-IsBelow (starts_with (codes "true") (b ∷ p)) (drop-IsBelow 3 p stack) (
          if-IsBelow (b == 34) (record { bound = string-size stack p })
            (if-IsBelow (b == b'-' || is_digit b) (record { bound = number-size stack b p })
              (if-IsBelow (b == b'[') (record { bound = open_array-size stack p })
                (if-IsBelow (b == b'{') (record { bound = open_object-size stack p })
                  (end_IsBelow p)))))))

step_value-size : (p : List ℕ) (stack : List Frame) → size (step_value p stack) < length p + 1
step_value-size [] stack = unfold step_value in omega arith
step_value-size (b ∷ p) stack = (step_value-IsBelow b p stack).bound

next_item-size :
    (p : List ℕ) (frame : Frame) (stack : List Frame)
    → size (next_item p frame stack) < length p + 2
unfolding next_item
next_item-size p array stack = omega arith
next_item-size p (object members name) stack = omega (arith, member_name-size members stack p)

continue_frame-size :
    (p : List ℕ) (frame : Frame) (stack : List Frame)
    → size (continue_frame p frame stack) < length p + 1
unfolding continue_frame
continue_frame-size [] frame stack = omega arith
continue_frame-size (c ∷ p) frame stack =
    ground (arith, skip_whitespace-le p, next_item-size (skip_whitespace p) frame stack)

step_close-size :
    (value : Json) (p : List ℕ) (stack : List Frame)
    → size (step_close value p stack) < length p + 1
unfolding step_close
step_close-size value p [] = omega arith
step_close-size value p (frame ∷ stack) =
    omega
      (arith, skip_whitespace-le p, continue_frame-size (skip_whitespace p) (put value frame) stack)

pub run_total :
    (fuel : ℕ) (s : Progress) → size s ≤ fuel → (r : Option Json) × (run fuel s ≡ some r)
unfolding run
run_total zero (finished r) h = (r, refl)
run_total zero (value_at p stack) h = absurd (omega arith)
run_total zero (has_value value p stack) h = absurd (omega arith)
run_total (suc fuel) (finished r) h = (r, refl)
run_total (suc fuel) (value_at p stack) h =
    run_total fuel (step_value p stack) (omega (arith, step_value-size p stack))
run_total (suc fuel) (has_value value p stack) h =
    run_total fuel (step_close value p stack) (omega (arith, step_close-size value p stack))

-- On any bytes the loops of the parser end within one turn for each byte and one more, with a value or
-- with the refusal of the text, which is what `parse` gives.
pub parse_total :
    (input : List ℕ)
    → run (length (beginning input) + 1) (value_at (beginning input) []) ≡ some (parse input)
unfolding parse
parse_total input =
    let (r, e) =
      run_total (length (beginning input) + 1) (value_at (beginning input) []) (omega arith) in
    rw e

-- More fuel changes nothing.
pub run_more :
    (fuel more : ℕ) (s : Progress) {r : Option Json}
    → fuel ≤ more
    → run fuel s ≡ some r
    → run more s ≡ some r
unfolding run
run_more zero zero (finished r) h e = e
run_more zero (suc more) (finished r) h e = e
run_more zero more (value_at p stack) h e = cc
run_more zero more (has_value value p stack) h e = cc
run_more (suc fuel) zero s h e = absurd (omega arith)
run_more (suc fuel) (suc more) (finished r) h e = e
run_more (suc fuel) (suc more) (value_at p stack) h e =
    run_more fuel more (step_value p stack) (omega arith) e
run_more (suc fuel) (suc more) (has_value value p stack) h e =
    run_more fuel more (step_close value p stack) (omega arith) e

-- The result of any run that ends is the result of `parse`.
pub parse_of_run :
    (fuel : ℕ) (input : List ℕ) {r : Option Json}
    → run fuel (value_at (beginning input) []) ≡ some r
    → parse input ≡ r
parse_of_run fuel input {r} e =
    let start = value_at (beginning input) [] in
    let enough = length (beginning input) + 1 in
    let one = run_more fuel (fuel + enough) start {r = r} (omega arith) e in
    let two =
      run_more enough (fuel + enough) start {r = parse input} (omega arith) (parse_total input) in
    cc
