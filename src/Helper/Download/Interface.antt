-- ===== src/Helper/Download/Interface.antt =====
-- esim-helper/src/download.rs: what a download is run on. `W` is the world behind all of it.
use mu5250_open_ui.Base.{ℕ, Bool, Option, none, some, String, List}
use mu5250_open_ui.Base.Results.{Result}
use mu5250_open_ui.Base.Strings.{str_eq}
use mu5250_open_ui.Base.Texts.{codes}
use mu5250_open_ui.Base.{if◌then◌else◌}
use mu5250_open_ui.Euicc.Download.Installation.{LoadBppResult}
use mu5250_open_ui.Euicc.Es8p.{ProfileMetadata}
use mu5250_open_ui.Euicc.Es9p.Status.{Es9pStatus}
use mu5250_open_ui.Euicc.Rsp.{AuthenticateServerParam, PrepareDownloadParam, CancelSessionReason}
use mu5250_open_ui.Euicc.Session.{Outcome}

pub data DownloadCtl : Type 0 where
  accept decline cancel preview_timeout : DownloadCtl

-- `DownloadCtl::parse`, of the text that the member `control` of the line has, if it has one.
unfoldable pub parse_control : Option (List ℕ) → Option DownloadCtl
parse_control none = none
parse_control (some text) =
    if str_eq text (codes "install")
    then some accept
    else if str_eq text (codes "decline")
    then some decline
    else if str_eq text (codes "cancel")
    then some cancel
    else if str_eq text (codes "timeout")
    then some preview_timeout
    else none

-- What `try_recv` and `recv_timeout` give: a line, none in time, or the end of the lines.
pub data Received : Type 0 where
  message : DownloadCtl → Received
  nothing disconnected : Received

-- The preview for the agent.
pub record Preview : Type 0 where
  pub iccid : List ℕ
  pub provider : Option (List ℕ)
  pub name : Option (List ℕ)
  pub class : Option String

unfoldable pub metadata_json : ProfileMetadata → Preview
metadata_json m = record {
  iccid = m.iccid;
  provider = m.service_provider_name;
  name = m.profile_name;
  class = m.profile_class;
}

pub record Card (W : Type 0) : Type 0 where
  pub get_euicc_challenge : W → Outcome W (List ℕ)
  pub get_euicc_info1 : W → Outcome W (List ℕ)
  pub authenticate_server :
      AuthenticateServerParam → Option (List ℕ) → Option (List ℕ) → W → Outcome W (List ℕ × List ℕ)
  pub prepare_download : PrepareDownloadParam → List ℕ → Option (List ℕ) → W → Outcome W (List ℕ)
  pub load_bound_profile_package : List ℕ → W → Outcome W LoadBppResult
  pub cancel_session : List ℕ → CancelSessionReason → W → Outcome W (List ℕ)

-- `Es9pTransport`, with the calls of es9p over it.
pub record Server (W : Type 0) : Type 0 where
  pub set_timeout : ℕ → W → W
  pub initiate_authentication :
      List ℕ → List ℕ → List ℕ → W → Result Es9pStatus (List ℕ × AuthenticateServerParam) × W
  pub authenticate_client :
      List ℕ → List ℕ → List ℕ → W → Result Es9pStatus PrepareDownloadParam × W
  pub get_bound_profile_package : List ℕ → List ℕ → List ℕ → W → Result Es9pStatus (List ℕ) × W
  pub cancel_session : List ℕ → List ℕ → List ℕ → W → Result Es9pStatus (Unit {0}) × W

-- The stop signal, the control lines, the clock in milliseconds, and the progress lines.
pub record Control (W : Type 0) : Type 0 where
  pub signalled : W → Bool × W
  pub try_recv : W → Received × W
  pub recv_timeout : ℕ → W → Received × W
  pub now : W → ℕ × W
  pub progress : String → Option Preview → W → W
