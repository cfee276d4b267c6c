-- ===== src/Helper/Download/Tests.antt =====
-- Witnesses and tests of a download.
use mu5250_open_ui.Base.{
  ℕ, suc, ◌+◌, ◌≤◌, ◌≡◌, refl, arith, false, Option, none, some, List, [], ◌∷◌,
}
use mu5250_open_ui.Base.Results.{Result, ok}
use mu5250_open_ui.Base.Texts.{codes}
use mu5250_open_ui.Euicc.B64.{decode}
use mu5250_open_ui.Euicc.Der.{find, find_first, iter, iter_loop}
use mu5250_open_ui.Euicc.Es8p
use mu5250_open_ui.Euicc.Es8p.{ProfileMetadata}
use mu5250_open_ui.Euicc.Rsp.{CancelSessionReason}
use mu5250_open_ui.Euicc.Session.{Error, malformed, done, failed}
use mu5250_open_ui.Helper.Download.Endings.{Settled, download-Settled}
use mu5250_open_ui.Helper.Download.Bounded.{Passes, IsBounded}
use mu5250_open_ui.Helper.Download.Termination.{download_ends}
use mu5250_open_ui.Helper.Download.Interface.{
  DownloadCtl, accept, decline, Received, message, nothing, Card, Server, Control,
}
use mu5250_open_ui.Helper.Download.Logged.{
  Log, installing, cancelling, logged_card, logged_server, logged_control,
}
use mu5250_open_ui.Helper.Download.Procedure.{Answer, limit_call, check_time, download}
use mu5250_open_ui.Helper.Download.Steps.{
  ActivationCode, ◌>>=◌, stop_if, decision, await, show, perform, from_card, cancelled, drain,
  from_server, set_session, from_result, confirmation_required_by_server,
}

-- The world is the control lines that have not been read, and the clock.
abbrev Lines : Type 0
Lines = List DownloadCtl × ℕ

-- Where no line comes the wait is in vain.
abbrev receive : ℕ → Lines → Received × Lines
receive limit ([], t) = (nothing, ([], t + limit))
receive limit (d ∷ ds, t) = (message d, (ds, t))

abbrev control : Control Lines
control = record {
  signalled = λ w. (false, w);
  try_recv = λ w. (nothing, w);
  recv_timeout = receive;
  now = λ w. (w.1, w);
  progress = λ step preview w. w;
}

-- A card that answers every call, with a package that it installs or refuses by its first byte.
abbrev card : Card Lines
card = record {
  get_euicc_challenge = done (codes "c");
  get_euicc_info1 = done (codes "i");
  authenticate_server = λ param matching_id imei. done (codes "tid", codes "auth");
  prepare_download = λ param tid code. done (codes "prepared");
  load_bound_profile_package = λ b64. failed (malformed "lost");
  cancel_session = λ tid reason. done (codes "cancelled");
}

abbrev server : Server Lines
server = record {
  set_timeout = λ limit w. w;
  initiate_authentication = λ address challenge info1 w. (
    ok (
      codes "server",
      record {
        b64_server_signed1 = [];
        b64_server_signature1 = [];
        b64_euicc_ci_pkid_to_be_used = [];
        b64_server_certificate = [];
      },
    ),
    w,
  );
  authenticate_client = λ address tid response w. (
    ok (record {
      b64_profile_metadata = [];
      b64_smdp_signed2 = [];
      b64_smdp_signature2 = [];
      b64_smdp_certificate = [];
    }),
    w,
  );
  get_bound_profile_package = λ address tid response w. (ok (codes "p"), w);
  cancel_session = λ address tid response w. (ok tt, w);
}

abbrev code : ActivationCode
code = record { smdp = codes "a.b"; matching_id = codes "m"; confirmation_required = false }

abbrev parse_metadata : List ℕ → Result Error ProfileMetadata
parse_metadata b64 = ok Es8p.default

abbrev count : List DownloadCtl → ℕ
count [] = 0
count (d ∷ ds) = suc (count ds)

-- The number of the lines.
abbrev left : Lines → ℕ
left w = count w.0

left-receive : (limit : ℕ) (w : Lines) → left (receive limit w).1 ≤ left w
left-receive limit ([], t) = omega arith
left-receive limit (d ∷ ds, t) = omega arith

receive-Passes : (limit : ℕ) (w : Lines) → Passes left (λ w'. w'.1) (w.1 + limit) (receive limit w)
receive-Passes limit ([], t) = omega arith
receive-Passes limit (d ∷ ds, t) = tt

world-IsBounded : IsBounded left card server control
world-IsBounded = record {
  challenge = λ w. omega arith;
  info1 = λ w. omega arith;
  authenticate_server = λ param matching_id imei w. omega arith;
  prepare = λ param tid code w. omega arith;
  load = λ b64 w. omega arith;
  cancel_session = λ tid reason w. omega arith;
  set_timeout = λ limit w. omega arith;
  initiate = λ address challenge info1 w. omega arith;
  client = λ address tid response w. omega arith;
  package_of = λ address tid response w. omega arith;
  signalled = λ w. omega arith;
  try_recv = λ w. omega arith;
  recv_timeout = left-receive;
  now = λ w. omega arith;
  progress = λ step preview w. omega arith;
  clock = λ w. w.1;
  signalled_time = λ w. omega arith;
  now_time = λ w. (omega arith, omega arith);
  waited = receive-Passes;
}

-- The user is silent.
download_ends_example :
    (answer : Answer) × (w : Lines) × (download card server control 130_001 parse_metadata code none
        90_000
        ([], 5)
      ≡ some (answer, w))
download_ends_example =
    download_ends left card server control world-IsBounded 130_001 (omega arith) parse_metadata code
      none 90_000 ([], 5) (omega arith)

download-Settled_example : Settled (
    download
      (logged_card card)
      (logged_server server)
      (logged_control control)
      4
      parse_metadata
      code
      none
      90_000
      ((accept ∷ [], 5), []))
download-Settled_example =
    download-Settled card server control 4 parse_metadata code none 90_000 (accept ∷ [], 5)

program : Unit {0}
unfolding download ◌>>=◌ stop_if show perform from_card logged_card cancelled logged_control drain
    limit_call from_server logged_server set_session from_result decode decision await check_time
    find find_first iter iter_loop confirmation_required_by_server
program = tt

-- The log behind an answer.
abbrev log_of : Option (Answer × (Lines × Log)) → Option Log
log_of none = none
log_of (some (answer, (lines, log))) = some log

abbrev run : List DownloadCtl → Option Log
run lines = log_of (
    download (logged_card card) (logged_server server) (logged_control control) 4 parse_metadata
      code none 90_000 ((lines, 5), []))

lost :
    run (accept ∷ [])
    ≡ some
        (installing ∷ (cancelling (codes "tid") CancelSessionReason.load_bpp_execution_error ∷ []))
unfolding program
lost = refl

declined :
    run (decline ∷ []) ≡ some (cancelling (codes "tid") CancelSessionReason.end_user_rejection ∷ [])
unfolding program
declined = refl
