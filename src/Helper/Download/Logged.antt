-- ===== src/Helper/Download/Logged.antt =====
-- A world with a log of the calls that install a profile or cancel the session of the card.
use mu5250_open_ui.Base.{ℕ, List, [], ◌∷◌, ◌++◌}
use mu5250_open_ui.Euicc.Rsp.{CancelSessionReason}
use mu5250_open_ui.Euicc.Session.{Outcome, done, failed, unfinished}
use mu5250_open_ui.Helper.Download.Interface.{Card, Server, Control}

pub data Event : Type 0 where
  installing : Event
  cancelling : List ℕ → CancelSessionReason → Event

abbrev pub Log : Type 0
Log = List Event

-- A call of the card with what it leaves in the log.
abbrev pub note : {W A : Type 0} → Log → (W → Outcome W A) → W × Log → Outcome (W × Log) A
note events call (w, log) = elim (call w) [
  | done a w' ↦ done a (w', log ++ events)
  | failed e w' ↦ failed e (w', log ++ events)
  | unfinished ↦ unfinished
]

-- A call that leaves nothing in the log.
abbrev pub quietly : {W A : Type 0} → (W → Outcome W A) → W × Log → Outcome (W × Log) A
quietly call (w, log) = elim (call w) [
  | done a w' ↦ done a (w', log)
  | failed e w' ↦ failed e (w', log)
  | unfinished ↦ unfinished
]

abbrev pub through : {W A : Type 0} → (W → A × W) → W × Log → A × (W × Log)
through call x = let r = call x.0 in (r.0, (r.1, x.1))

abbrev pub change : {W : Type 0} → (W → W) → W × Log → W × Log
change f x = (f x.0, x.1)

module _ {W : Type 0} where
  unfoldable pub logged_card : Card W → Card (W × Log)
  logged_card c = record {
    get_euicc_challenge = quietly c.get_euicc_challenge;
    get_euicc_info1 = quietly c.get_euicc_info1;
    authenticate_server =
        λ param matching_id imei. quietly (c.authenticate_server param matching_id imei);
    prepare_download = λ param tid code. quietly (c.prepare_download param tid code);
    load_bound_profile_package = λ b64. note (installing ∷ []) (c.load_bound_profile_package b64);
    cancel_session = λ tid reason. note (cancelling tid reason ∷ []) (c.cancel_session tid reason);
  }

  unfoldable pub logged_server : Server W → Server (W × Log)
  logged_server h = record {
    set_timeout = λ limit. change (h.set_timeout limit);
    initiate_authentication =
        λ address challenge info1. through (h.initiate_authentication address challenge info1);
    authenticate_client =
        λ address tid response. through (h.authenticate_client address tid response);
    get_bound_profile_package =
        λ address tid response. through (h.get_bound_profile_package address tid response);
    cancel_session = λ address tid response. through (h.cancel_session address tid response);
  }

  unfoldable pub logged_control : Control W → Control (W × Log)
  logged_control c = record {
    signalled = through c.signalled;
    try_recv = through c.try_recv;
    recv_timeout = λ limit. through (c.recv_timeout limit);
    now = through c.now;
    progress = λ step preview. change (c.progress step preview);
  }
