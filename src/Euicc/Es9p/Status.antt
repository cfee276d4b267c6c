-- ===== src/Euicc/Es9p/Status.antt =====
-- euicc/src/es9p.rs: why a call of the server failed. Texts are lists of bytes; `c_str` is `c_bytes` on the
-- bytes of a text.
use mu5250_open_ui.Base.{
  ℕ, Bool, ◌&&◌, ◌||◌, Option, none, some, String, List, [], ◌∷◌, ◌++◌, take, ◌==◌, if◌then◌else◌,
}
use mu5250_open_ui.Base.Strings.{str_eq}
use mu5250_open_ui.Base.Texts.{codes}
use mu5250_open_ui.Base.Utf8.{from_utf8_lossy}
use mu5250_open_ui.Euicc.Es9p.Errors.{errors}
use mu5250_open_ui.Euicc.Es9p.Json.{Json, str, obj, other, c_bytes, get}

pub record Es9pStatus : Type 0 where
  pub subject_code : List ℕ
  pub reason_code : List ℕ
  pub subject_identifier : List ℕ
  pub message : List ℕ
  pub transport_error : Option (List ℕ)

pub record Status : Type 0 where
  pub subject_code : List ℕ
  pub reason_code : List ℕ
  pub subject_identifier : List ℕ
  pub message : List ℕ

abbrev pub code_len : ℕ
code_len = 8

abbrev pub text_len : ℕ
text_len = 128

unfoldable pub find_error : List ℕ → List ℕ → List (String × String × String) → Option (List ℕ)
find_error subject_code reason_code [] = none
find_error subject_code reason_code ((subject, reason, description) ∷ rows) =
    let rest = find_error subject_code reason_code rows in
    if str_eq (codes subject) subject_code && str_eq (codes reason) reason_code
    then some (codes description)
    else rest

unfoldable pub error_message_bytes : List ℕ → List ℕ → Option (List ℕ)
unfolding find_error
error_message_bytes subject_code reason_code = find_error subject_code reason_code errors

unfoldable pub error_message : List ℕ → List ℕ → Option (List ℕ)
unfolding error_message_bytes c_bytes
error_message subject_code reason_code =
    error_message_bytes (c_bytes subject_code) (c_bytes reason_code)

-- `snprintf(buf, cap + 1, "%s", value)`
unfoldable pub field : List ℕ → ℕ → List ℕ
unfolding c_bytes
field value cap = take cap (c_bytes value)

-- `String::from_utf8`, or its lossy form, which leaves valid UTF-8 as it is.
unfoldable pub text : List ℕ → List ℕ
unfolding from_utf8_lossy
text v = from_utf8_lossy v

abbrev is_base64_space : ℕ → Bool
is_base64_space b = b == 10 || (b == 13 || (b == 32 || b == 9))

unfoldable pub without_spaces : List ℕ → List ℕ
without_spaces [] = []
without_spaces (b ∷ v) = let rest = without_spaces v in if is_base64_space b then rest else b ∷ rest

unfoldable pub base64_text : List ℕ → List ℕ
unfolding text without_spaces
base64_text v = text (without_spaces v)

-- `Status::new`
unfoldable pub new : List ℕ → List ℕ → Status
unfolding field
new subject_identifier message = record {
  subject_code = codes "0.0.0";
  reason_code = codes "0.0.0";
  subject_identifier = field subject_identifier text_len;
  message = field message text_len;
}

-- The bytes of a member that is a string.
abbrev pub string_of : Option Json → Option (List ℕ)
string_of none = none
string_of (some (str v)) = some v
string_of (some (obj members)) = none
string_of (some other) = none

abbrev pub field_or : List ℕ → ℕ → Option (List ℕ) → List ℕ
field_or old cap none = old
field_or old cap (some v) = field v cap

-- The message where the server sent none.
abbrev pub described : List ℕ → List ℕ → Option (List ℕ) → List ℕ
described subject_code reason_code (some description) = field description text_len
described subject_code reason_code none =
    field (codes "subject-code: " ++ (subject_code ++ (codes ", reason-code: " ++ reason_code)))
      text_len

abbrev pub message_of : List ℕ → List ℕ → Option (List ℕ) → List ℕ
message_of subject_code reason_code (some v) = field v text_len
message_of subject_code reason_code none =
    described subject_code reason_code (error_message_bytes subject_code reason_code)

-- `Status::apply`
unfoldable pub apply : Status → Json → Status
unfolding field get error_message_bytes
apply s reported =
    let reason = field_or s.reason_code code_len (string_of (get (codes "reasonCode") reported)) in
    let subject =
      field_or s.subject_code code_len (string_of (get (codes "subjectCode") reported)) in
    record {
      reason_code = reason;
      subject_code = subject;
      subject_identifier =
          field_or s.subject_identifier text_len
            (string_of (get (codes "subjectIdentifier") reported));
      message = message_of subject reason (string_of (get (codes "message") reported));
    }

-- `Status::into_error`
unfoldable pub into_error : Status → Es9pStatus
unfolding text
into_error s = record {
  subject_code = text s.subject_code;
  reason_code = text s.reason_code;
  subject_identifier = text s.subject_identifier;
  message = text s.message;
  transport_error = none;
}
