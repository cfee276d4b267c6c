-- ===== src/Helper/Download/Bounded.antt =====
-- A world in which a download cannot go on for ever: there is a bound on the control lines that are still to
-- be read, which no call raises, the clock does not go back, a wait that is in vain takes its time, and the
-- card answers.
use mu5250_open_ui.Base.{ℕ, ◌+◌, ◌≤◌, ◌<◌, Option, String, List}
use mu5250_open_ui.Euicc.Rsp.{AuthenticateServerParam, PrepareDownloadParam, CancelSessionReason}
use mu5250_open_ui.Euicc.Session.{Outcome, done, failed, unfinished}
use mu5250_open_ui.Helper.Download.Interface.{
  Received, message, nothing, disconnected, Preview, Card, Server, Control,
}

module _ {W : Type 0} (left : W → ℕ) where
  -- The call ends, with at most `n` left.
  abbrev pub Returns : {A : Type 0} → ℕ → Outcome W A → Type 0
  Returns n (done a w) = left w ≤ n
  Returns n (failed e w) = left w ≤ n
  Returns n unfinished = ⊥

  -- A line that is read is no longer to be read.
  abbrev pub Reads : ℕ → Received × W → Type 0
  Reads n (message d, w) = left w < n
  Reads n (nothing, w) = left w ≤ n
  Reads n (disconnected, w) = left w ≤ n

  -- A wait that is in vain ends no sooner than at `until`.
  abbrev pub Passes : (W → ℕ) → ℕ → Received × W → Type 0
  Passes clock until (nothing, w) = until ≤ clock w
  Passes clock until (message d, w) = Unit
  Passes clock until (disconnected, w) = Unit

  pub record IsBounded (card : Card W) (http : Server W) (ctl : Control W) : Type 0 where
    pub challenge : (w : W) → Returns (left w) (card.get_euicc_challenge w)
    pub info1 : (w : W) → Returns (left w) (card.get_euicc_info1 w)
    pub authenticate_server :
        (param : AuthenticateServerParam) (matching_id imei : Option (List ℕ)) (w : W)
        → Returns (left w) (card.authenticate_server param matching_id imei w)
    pub prepare :
        (param : PrepareDownloadParam) (tid : List ℕ) (code : Option (List ℕ)) (w : W)
        → Returns (left w) (card.prepare_download param tid code w)
    pub load : (b64 : List ℕ) (w : W) → Returns (left w) (card.load_bound_profile_package b64 w)
    pub cancel_session :
        (tid : List ℕ) (reason : CancelSessionReason) (w : W)
        → Returns (left w) (card.cancel_session tid reason w)
    pub set_timeout : (limit : ℕ) (w : W) → left (http.set_timeout limit w) ≤ left w
    pub initiate :
        (address challenge info1 : List ℕ) (w : W)
        → left (http.initiate_authentication address challenge info1 w).1 ≤ left w
    pub client :
        (address tid response : List ℕ) (w : W)
        → left (http.authenticate_client address tid response w).1 ≤ left w
    pub package_of :
        (address tid response : List ℕ) (w : W)
        → left (http.get_bound_profile_package address tid response w).1 ≤ left w
    pub signalled : (w : W) → left (ctl.signalled w).1 ≤ left w
    pub try_recv : (w : W) → Reads (left w) (ctl.try_recv w)
    pub recv_timeout : (limit : ℕ) (w : W) → left (ctl.recv_timeout limit w).1 ≤ left w
    pub now : (w : W) → left (ctl.now w).1 ≤ left w
    pub progress :
        (step : String) (preview : Option Preview) (w : W)
        → left (ctl.progress step preview w) ≤ left w
    -- The time of the world, in milliseconds, which `now` reads.
    pub clock : W → ℕ
    pub signalled_time : (w : W) → clock w ≤ clock (ctl.signalled w).1
    pub now_time : (w : W) → (clock w ≤ (ctl.now w).0) × ((ctl.now w).0 ≤ clock (ctl.now w).1)
    pub waited : (limit : ℕ) (w : W) → Passes clock (clock w + limit) (ctl.recv_timeout limit w)
