-- ===== src/Helper/Download/Procedure.antt =====
-- esim-helper/src/download.rs: the procedure from its parts, and what is done about a stop.
use mu5250_open_ui.Base.{
  ℕ, ◌-◌, Bool, true, false, ◌&&◌, Option, none, some, List, min, ltb, if◌then◌else◌,
}
use mu5250_open_ui.Base.Results.{Result, ok, err}
use mu5250_open_ui.Euicc.Download.Installation.{
  LoadBppResult, is_success, bpp_command_id_str, error_reason_str,
}
use mu5250_open_ui.Euicc.Es8p.{ProfileMetadata}
use mu5250_open_ui.Euicc.Rsp
use mu5250_open_ui.Euicc.Rsp.{CancelSessionReason, postponed, load_bpp_execution_error}
use mu5250_open_ui.Euicc.Session.{Error, done, failed, unfinished}
use mu5250_open_ui.Helper.Download.Interface.{cancel, metadata_json, Card, Server, Control}
use mu5250_open_ui.Helper.Download.Stops
use mu5250_open_ui.Helper.Download.Stops.{
  Stop, Ending, Message, plain, of_error, refused, stopped, card_stop, user, is_some,
}
use mu5250_open_ui.Helper.Download.Steps.{
  ActivationCode, Session, next, stops, endless, Part, ◌>>=◌, ◌>>◌, stop_with, stop_if, from_card,
  from_server, from_result, perform, set_session, confirmation_required_by_server, is_missing,
  or_255, cancelled, check_cancelled, check_decision, show, auth_timeout, bpp_timeout,
  cancel_timeout, install_min,
}

-- `Stop { ending: Ending::Unknown, .. }`
abbrev pub lost : Error → Stop
lost e =
    record (stopped (of_error "es10b_load_bound_profile_package" e)
      (some load_bpp_execution_error)) { ending = Stops.unknown }

abbrev pub card_refused : LoadBppResult → Stop
card_refused result =
    stopped
      (refused (bpp_command_id_str (or_255 result.bpp_command_id))
        (error_reason_str (or_255 result.error_reason)))
      none

-- What `download` answers: the ICCID of the new profile and the number of its receipt.
abbrev pub Answer : Type 0
Answer = Result (Ending × Message) (Option (List ℕ) × ℕ)

-- `Err(stop)`, of the calls that are made about it.
abbrev pub answer_stop : Stop → Answer
answer_stop e = err (e.ending, e.message)

abbrev pub is_failed : Ending → Bool
is_failed Stops.failed = true
is_failed Stops.cancelled = false
is_failed Stops.unknown = false

module _ {W : Type 0} (card : Card W) (http : Server W) (ctl : Control W) (fuel : ℕ)
    (parse_metadata : List ℕ → Result Error ProfileMetadata) where
  -- The part of the install: its answer, and the card's refusal.
  unfoldable pub check_installed : LoadBppResult → Part W (Option (List ℕ) × ℕ)
  check_installed result =
      if is_success result
      then next (result.iccid, result.seq_number)
      else (do set_session none; stop_with (card_refused result))

  unfoldable pub install : List ℕ → Part W (Option (List ℕ) × ℕ)
  unfolding check_installed
  install bound_package = do
    show ctl "es10b_load_bound_profile_package"
    result ← from_card lost (card.load_bound_profile_package bound_package)
    check_installed result

  module _ (code : ActivationCode) (confirmation_code : Option (List ℕ)) (deadline : ℕ) where
    -- `http.set_timeout(limit.min(left(deadline)))`
    unfoldable pub limit_call : ℕ → Part W (Unit {0})
    limit_call limit =
        perform (λ w. let (now, w') = ctl.now w in http.set_timeout (min limit (deadline - now)) w')

    -- `if left(deadline) < INSTALL_MIN { return Err(..) }`
    unfoldable pub check_time : Part W (Unit {0})
    check_time s w =
        let (now, w') = ctl.now w in
        if ltb (deadline - now) install_min
        then stops (stopped (plain "not enough time left to install") (some Rsp.timeout)) s w'
        else next tt s w'

    -- Up to the session of the card: the transaction ids of the card and of the server, and the card's
    -- answer to the server.
    unfoldable pub authenticate : Part W (List ℕ × List ℕ × List ℕ)
    unfolding check_cancelled
    authenticate = do
      stop_if (code.confirmation_required && is_missing confirmation_code)
          (stopped (plain "this activation code needs a confirmation code") none)
      show ctl "es10b_get_euicc_challenge_and_info"
      challenge ←
          from_card (card_stop "es10b_get_euicc_challenge_and_info") card.get_euicc_challenge
      info1 ← from_card (card_stop "es10b_get_euicc_challenge_and_info") card.get_euicc_info1
      check_cancelled ctl fuel
      show ctl "es9p_initiate_authentication"
      limit_call auth_timeout
      (server_tid, auth) ←
          from_server "es9p_initiate_authentication"
            (http.initiate_authentication code.smdp challenge info1)
      check_cancelled ctl fuel
      show ctl "es10b_authenticate_server"
      (card_tid, auth_response) ←
          from_card (card_stop "es10b_authenticate_server")
            (card.authenticate_server auth (some code.matching_id) none)
      set_session (some (card_tid, server_tid))
      check_cancelled ctl fuel
      next (card_tid, server_tid, auth_response)

    -- From there to the package: the preview, the decision and the card's preparation.
    unfoldable pub negotiate : List ℕ → List ℕ → List ℕ → Part W (List ℕ)
    unfolding check_cancelled check_decision confirmation_required_by_server
    negotiate card_tid server_tid auth_response = do
      show ctl "es9p_authenticate_client"
      limit_call auth_timeout
      prepare ←
          from_server "es9p_authenticate_client"
            (http.authenticate_client code.smdp server_tid auth_response)
      metadata ← from_result "es8p_metadata_parse" (parse_metadata prepare.b64_profile_metadata)
      perform (ctl.progress "es8p_metadata_parse" (some (metadata_json metadata)))
      stop_if
          (is_missing confirmation_code && confirmation_required_by_server prepare.b64_smdp_signed2)
          (stopped (plain "the operator requires a confirmation code for this profile")
            (some postponed))
      show ctl "preview"
      check_decision ctl fuel deadline
      show ctl "es10b_prepare_download"
      prepared ←
          from_card (card_stop "es10b_prepare_download")
            (card.prepare_download prepare card_tid confirmation_code)
      check_cancelled ctl fuel
      show ctl "es9p_get_bound_profile_package"
      limit_call bpp_timeout
      bound_package ←
          from_server "es9p_get_bound_profile_package"
            (http.get_bound_profile_package code.smdp server_tid prepared)
      check_cancelled ctl fuel
      check_time
      next bound_package

    unfoldable pub steps : Part W (Option (List ℕ) × ℕ)
    unfolding authenticate negotiate install
    steps = do
      (card_tid, server_tid, auth_response) ← authenticate
      bound_package ← negotiate card_tid server_tid auth_response
      install bound_package

    -- The server is told, and its failure is only logged.
    abbrev pub tell_server : List ℕ → List ℕ → Bool → W → W
    tell_server server_tid b64 true w =
        (http.cancel_session code.smdp server_tid b64
          (http.set_timeout cancel_timeout (ctl.progress "es9p_cancel_session" none w))).1
    tell_server server_tid b64 false w = w

    -- The cancellation of the session of the card, where there is one and a reason.
    unfoldable pub clean_up : Stop → Session → Option CancelSessionReason → W → Option (Answer × W)
    clean_up e none reason w = some (answer_stop e, w)
    clean_up e (some ids) none w = some (answer_stop e, w)
    clean_up e (some (card_tid, server_tid)) (some reason) w =
        elim (card.cancel_session card_tid reason (ctl.progress "es10b_cancel_session" none w)) [
          | done b64 w' ↦ some (answer_stop e, tell_server server_tid b64 e.notify_server w')
          | failed f w' ↦ some (answer_stop e, w')
          | unfinished ↦ none
        ]

    -- A Cancel that is pressed while the failing step runs still postpones.
    unfoldable pub final_stop : Stop → W → Option (Stop × W)
    final_stop e w = elim (cancelled ctl fuel w) [
      | none ↦ none
      | some (c, w') ↦ some (if c then user cancel else e, w')
    ]

    abbrev pub settle_stop : Session → Option (Stop × W) → Option (Answer × W)
    settle_stop s none = none
    settle_stop s (some (e, w)) = clean_up e s e.reason w

    unfoldable pub download : W → Option (Answer × W)
    unfolding steps clean_up final_stop
    download w = elim (steps none w) [
      | next result s w' ↦ some (ok result, w')
      | stops e s w' ↦
          settle_stop s
            (if is_some e.reason && is_failed e.ending then final_stop e w' else some (e, w'))
      | endless ↦ none
    ]
