-- ===== src/Helper/Download/Stops.antt =====
-- esim-helper/src/download.rs: why a download stopped.
use mu5250_open_ui.Base.{
  ℕ, Bool, true, false, not, ◌||◌, Option, none, some, String, List, [], ◌++◌, if◌then◌else◌,
}
use mu5250_open_ui.Base.Strings.{str_eq}
use mu5250_open_ui.Base.Texts.{codes}
use mu5250_open_ui.Euicc.Es9p.Status.{Es9pStatus}
use mu5250_open_ui.Euicc.Hex.{is_empty}
use mu5250_open_ui.Euicc.Rsp.{CancelSessionReason, end_user_rejection, postponed, undefined}
use mu5250_open_ui.Euicc.Rsp
use mu5250_open_ui.Euicc.Session.{Error, transport, status, malformed, argument}
use mu5250_open_ui.Helper.Download.Interface.{DownloadCtl, accept, decline, cancel, preview_timeout}

pub data Ending : Type 0 where
  cancelled failed unknown : Ending

-- The text of a stop, with what it quotes.
pub data Message : Type 0 where
  plain : String → Message
  of_error : String → Error → Message
  of_server : List ℕ → Message
  refused : String → String → Message

pub record Stop : Type 0 where
  pub message : Message
  pub reason : Option CancelSessionReason
  pub notify_server : Bool
  pub ending : Ending

-- `Stop::new`
abbrev pub stopped : Message → Option CancelSessionReason → Stop
stopped message reason = record {
  message = message;
  reason = reason;
  notify_server = true;
  ending = failed;
}

-- `Stop::fail`
abbrev pub fail : String → Error → Stop
fail step detail = stopped (of_error step detail) (some undefined)

abbrev pub card_reason : Error → CancelSessionReason
card_reason (transport text) = Rsp.timeout
card_reason (status sw1 sw2) = undefined
card_reason (malformed text) = undefined
card_reason (argument text) = undefined

-- `Stop::card`
abbrev pub card_stop : String → Error → Stop
card_stop step e = stopped (of_error step e) (some (card_reason e))

abbrev pub is_some : {A : Type 0} → Option A → Bool
is_some none = false
is_some (some a) = true

abbrev pub is_status_error : Es9pStatus → Bool
is_status_error e = str_eq e.message (codes "HTTP status code error")

-- The text behind the message of a server.
abbrev pub cause : Es9pStatus → Option (List ℕ) → List ℕ
cause e (some text) = codes " (" ++ (text ++ codes ")")
cause e none = if is_status_error e then codes " (" ++ (e.subject_identifier ++ codes ")") else []

unfoldable pub es9p_error : String → Es9pStatus → List ℕ
es9p_error op e =
    if is_empty e.message
    then codes op
      ++ (codes ": subject code " ++ (e.subject_code ++ (codes ", reason code " ++ e.reason_code)))
    else codes op ++ (codes ": " ++ (e.message ++ cause e e.transport_error))

-- `Stop::server`
unfoldable pub server_stop : String → Es9pStatus → Stop
unfolding es9p_error
server_stop step e =
    if is_some e.transport_error || is_status_error e
    then stopped (of_server (es9p_error step e)) (some Rsp.timeout)
    else if not (str_eq e.subject_code (codes "0.0.0"))
    then record (stopped (of_server (es9p_error step e)) (some undefined)) { notify_server = false }
    else stopped (of_server (es9p_error step e)) (some undefined)

abbrev pub user_text : DownloadCtl → String
user_text decline = "declined at the preview"
user_text preview_timeout = "not confirmed in time"
user_text accept = "cancelled"
user_text cancel = "cancelled"

abbrev pub user_reason : DownloadCtl → CancelSessionReason
user_reason decline = end_user_rejection
user_reason preview_timeout = Rsp.timeout
user_reason accept = postponed
user_reason cancel = postponed

-- `Stop::user`
abbrev pub user : DownloadCtl → Stop
user ctl = record (stopped (plain (user_text ctl)) (some (user_reason ctl))) { ending = cancelled }
