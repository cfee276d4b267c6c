-- ===== src/Helper/Download/ActivationCode.antt =====
-- esim-helper/src/download.rs: the reading of an activation code. A `&str` is the list of its characters, and
-- the texts that come out are their bytes. `trim`, `is_control` and `split` are Rust's standard library.
pub mod Accepted
mod Tests
use mu5250_open_ui.Base.{
  ℕ, ◌+◌, Bool, true, false, not, ◌&&◌, ◌||◌, Option, none, some, List, [], ◌∷◌, ◌++◌, length, ltb,
  leb, ◌==◌, if◌then◌else◌,
}
use mu5250_open_ui.Base.Results.{Result, ok, err}
use mu5250_open_ui.Base.Split.{split}
use mu5250_open_ui.Base.Strings.{str_eq}
use mu5250_open_ui.Base.Texts.{codes}
use mu5250_open_ui.Base.Utf8.{encode_utf8}
use mu5250_open_ui.Euicc.Hex.{is_empty}
use mu5250_open_ui.Helper.Address.{valid_address}
use mu5250_open_ui.Helper.Download.Steps.{ActivationCode}

abbrev pub max_code_bytes : ℕ
max_code_bytes = 512

abbrev pub max_confirmation_bytes : ℕ
max_confirmation_bytes = 64

-- `char::is_whitespace`: the characters of Unicode's property White_Space.
unfoldable pub is_whitespace : ℕ → Bool
is_whitespace c =
    (leb 0x9 c && leb c 0xd)
    || (c == 0x20
        || (c == 0x85
            || (c == 0xa0
                || (c == 0x1680
                    || ((leb 0x2000 c && leb c 0x200a)
                        || (c == 0x2028
                            || (c == 0x2029 || (c == 0x202f || (c == 0x205f || c == 0x3000)))))))))

-- `char::is_control`: the characters of Unicode's category Cc.
unfoldable pub is_control : ℕ → Bool
is_control c = ltb c 0x20 || (leb 0x7f c && leb c 0x9f)

unfoldable pub any_control : List ℕ → Bool
unfolding is_control
any_control [] = false
any_control (c ∷ cs) = is_control c || any_control cs

unfoldable pub trim_start : List ℕ → List ℕ
unfolding is_whitespace
trim_start [] = []
trim_start (c ∷ cs) = let rest = trim_start cs in if is_whitespace c then rest else c ∷ cs

unfoldable pub trim_end : List ℕ → List ℕ
unfolding is_whitespace
trim_end [] = []
trim_end (c ∷ cs) =
    let rest = trim_end cs in if is_whitespace c && is_empty rest then [] else c ∷ rest

unfoldable pub trim : List ℕ → List ℕ
unfolding trim_start trim_end
trim text = trim_end (trim_start text)

-- The bytes of a text.
unfoldable pub utf8 : List ℕ → List ℕ
unfolding encode_utf8
utf8 [] = []
utf8 (c ∷ cs) = encode_utf8 c ++ utf8 cs

abbrev pub to_ascii_lowercase : ℕ → ℕ
to_ascii_lowercase c = if leb b'A' c && leb c b'Z' then c + 32 else c

unfoldable pub eq_ignore_ascii_case : List ℕ → List ℕ → Bool
eq_ignore_ascii_case [] [] = true
eq_ignore_ascii_case [] (d ∷ ds) = false
eq_ignore_ascii_case (c ∷ cs) [] = false
eq_ignore_ascii_case (c ∷ cs) (d ∷ ds) =
    to_ascii_lowercase c == to_ascii_lowercase d && eq_ignore_ascii_case cs ds

pub data CodeError : Type 0 where
  too_long no_prefix wrong_fields invalid_address : CodeError

-- `fields.get(4) == Some(&"1")`, of the fields behind the third.
abbrev pub is_required : List (List ℕ) → Bool
is_required (oid ∷ (flag ∷ rest)) = str_eq flag (codes "1")
is_required (oid ∷ []) = false
is_required [] = false

abbrev pub is_prefix : List ℕ → Bool
is_prefix field = eq_ignore_ascii_case field (codes "LPA:1")

-- What is read from the fields.
unfoldable pub from_fields : List (List ℕ) → Result CodeError ActivationCode
unfolding eq_ignore_ascii_case trim utf8 valid_address str_eq
from_fields [] = err CodeError.no_prefix
from_fields (lpa ∷ []) = if is_prefix lpa then err wrong_fields else err no_prefix
from_fields (lpa ∷ (address ∷ [])) = if is_prefix lpa then err wrong_fields else err no_prefix
from_fields (lpa ∷ (address ∷ (id ∷ rest))) =
    let smdp = utf8 (trim address) in
    if not (is_prefix lpa)
    then err no_prefix
    else if not (valid_address smdp)
    then err invalid_address
    else ok
        (record { smdp = smdp; matching_id = utf8 id; confirmation_required = is_required rest })

unfoldable pub parse_activation_code : List ℕ → Result CodeError ActivationCode
unfolding trim utf8 any_control split from_fields
parse_activation_code code =
    let text = trim code in
    if ltb max_code_bytes (length (utf8 text)) || any_control text
    then err too_long
    else from_fields (split b'$' text)

unfoldable pub valid_confirmation_code : List ℕ → Bool
unfolding utf8 any_control
valid_confirmation_code code =
    not (is_empty code)
    && (leb (length (utf8 code)) max_confirmation_bytes && not (any_control code))
