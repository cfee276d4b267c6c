-- ===== src/Helper/Download/Early.antt =====
-- The procedure up to the install neither installs a profile nor cancels a session.
use mu5250_open_ui.Base.{ℕ, ◌-◌, inl, inr, refl, Option, none, some, String, List, Bool-cases, ltb}
use mu5250_open_ui.Base.Results.{Result}
use mu5250_open_ui.Euicc.Es8p.{ProfileMetadata}
use mu5250_open_ui.Euicc.Rsp.{AuthenticateServerParam, PrepareDownloadParam}
use mu5250_open_ui.Euicc.Session.{Error}
use mu5250_open_ui.Helper.Download.Interface.{Preview, Card, Server, Control}
use mu5250_open_ui.Helper.Download.Logged.{Log, logged_card, logged_server, logged_control}
use mu5250_open_ui.Helper.Download.Procedure.{limit_call, check_time, authenticate, negotiate}
use mu5250_open_ui.Helper.Download.Quiet.{
  IsEarly, IsQuiet, bind-IsQuiet, next-IsQuiet, set_session-IsQuiet, perform-IsQuiet,
  stop_if-IsQuiet, from_card-IsQuiet, from_server-IsQuiet, from_result-IsQuiet,
  check_cancelled-IsQuiet, check_decision-IsQuiet,
}
use mu5250_open_ui.Helper.Download.Steps.{
  ActivationCode, install_min, show, perform, from_card, from_server,
}
use mu5250_open_ui.Helper.Download.Stops.{card_stop}

module _ {W : Type 0} (card : Card W) (http : Server W) (ctl : Control W) (fuel : ℕ)
    (parse_metadata : List ℕ → Result Error ProfileMetadata) where
  abbrev lc : Card (W × Log)
  lc = logged_card card

  abbrev lh : Server (W × Log)
  lh = logged_server http

  abbrev lt : Control (W × Log)
  lt = logged_control ctl

  show-IsQuiet : (step : String) → IsQuiet (show lt step)
  unfolding show logged_control
  show-IsQuiet step = perform-IsQuiet _ (λ x. refl)

  card_stop-IsEarly : (step : String) (e : Error) → IsEarly (card_stop step e)
  card_stop-IsEarly step e = inl refl

  challenge-IsQuiet : (step : String) → IsQuiet (from_card (card_stop step) lc.get_euicc_challenge)
  unfolding logged_card
  challenge-IsQuiet step =
      from_card-IsQuiet (card_stop step) card.get_euicc_challenge (card_stop-IsEarly step)

  info1-IsQuiet : (step : String) → IsQuiet (from_card (card_stop step) lc.get_euicc_info1)
  unfolding logged_card
  info1-IsQuiet step =
      from_card-IsQuiet (card_stop step) card.get_euicc_info1 (card_stop-IsEarly step)

  authenticate_server-IsQuiet :
      (step : String) (param : AuthenticateServerParam) (matching_id imei : Option (List ℕ))
      → IsQuiet (from_card (card_stop step) (lc.authenticate_server param matching_id imei))
  unfolding logged_card
  authenticate_server-IsQuiet step param matching_id imei =
      from_card-IsQuiet (card_stop step) (card.authenticate_server param matching_id imei)
        (card_stop-IsEarly step)

  prepare-IsQuiet :
      (step : String) (param : PrepareDownloadParam) (tid : List ℕ) (code : Option (List ℕ))
      → IsQuiet (from_card (card_stop step) (lc.prepare_download param tid code))
  unfolding logged_card
  prepare-IsQuiet step param tid code =
      from_card-IsQuiet (card_stop step) (card.prepare_download param tid code)
        (card_stop-IsEarly step)

  initiate-IsQuiet :
      (step : String) (address challenge info1 : List ℕ)
      → IsQuiet (from_server step (lh.initiate_authentication address challenge info1))
  unfolding logged_server
  initiate-IsQuiet step address challenge info1 =
      from_server-IsQuiet step (http.initiate_authentication address challenge info1)

  client-IsQuiet :
      (step : String) (address tid response : List ℕ)
      → IsQuiet (from_server step (lh.authenticate_client address tid response))
  unfolding logged_server
  client-IsQuiet step address tid response =
      from_server-IsQuiet step (http.authenticate_client address tid response)

  bpp-IsQuiet :
      (step : String) (address tid response : List ℕ)
      → IsQuiet (from_server step (lh.get_bound_profile_package address tid response))
  unfolding logged_server
  bpp-IsQuiet step address tid response =
      from_server-IsQuiet step (http.get_bound_profile_package address tid response)

  progress-IsQuiet :
      (step : String) (preview : Option Preview) → IsQuiet (perform (lt.progress step preview))
  unfolding logged_control
  progress-IsQuiet step preview = perform-IsQuiet _ (λ x. refl)

  module _ (code : ActivationCode) (confirmation_code : Option (List ℕ)) (deadline : ℕ) where
    limit_call-IsQuiet :
        (limit : ℕ)
        → IsQuiet (limit_call lc lh lt fuel parse_metadata code confirmation_code deadline limit)
    unfolding limit_call logged_control logged_server
    limit_call-IsQuiet limit = perform-IsQuiet _ (λ x. refl)

    check_time-IsQuiet :
        IsQuiet (check_time lc lh lt fuel parse_metadata code confirmation_code deadline)
    unfolding check_time logged_control
    check_time-IsQuiet = record {
      holds = λ s x. elim (Bool-cases (ltb (deadline - (ctl.now x.0).0) install_min)) [
        | inl t ↦ rw t (refl, inl refl)
        | inr f ↦ rw f refl
      ];
    }

    pub authenticate-IsQuiet :
        IsQuiet (authenticate lc lh lt fuel parse_metadata code confirmation_code deadline)
    unfolding authenticate
    authenticate-IsQuiet = bind-IsQuiet _ _ (stop_if-IsQuiet _ _ (inl refl)) λ _.
        bind-IsQuiet _ _ (show-IsQuiet _) λ _. bind-IsQuiet _ _ (challenge-IsQuiet _) λ challenge.
          bind-IsQuiet _ _ (info1-IsQuiet _) λ info1.
            bind-IsQuiet _ _ (check_cancelled-IsQuiet ctl fuel) λ _.
              bind-IsQuiet _ _ (show-IsQuiet _) λ _. bind-IsQuiet _ _ (limit_call-IsQuiet _) λ _.
                bind-IsQuiet _ _ (initiate-IsQuiet _ code.smdp challenge info1) λ r.
                  bind-IsQuiet _ _ (check_cancelled-IsQuiet ctl fuel) λ _.
                    bind-IsQuiet _ _ (show-IsQuiet _) λ _.
                      bind-IsQuiet _ _
                        (authenticate_server-IsQuiet _ r.1 (some code.matching_id) none)
                        λ t. bind-IsQuiet _ _ (set_session-IsQuiet (some (t.0, r.0))) λ _.
                          bind-IsQuiet _ _ (check_cancelled-IsQuiet ctl fuel)
                            λ _. next-IsQuiet (t.0, r.0, t.1)

    pub negotiate-IsQuiet :
        (card_tid server_tid auth_response : List ℕ)
        → IsQuiet (
            negotiate lc lh lt fuel parse_metadata code confirmation_code deadline card_tid
              server_tid auth_response)
    unfolding negotiate
    negotiate-IsQuiet card_tid server_tid auth_response = bind-IsQuiet _ _ (show-IsQuiet _) λ _.
        bind-IsQuiet _ _ (limit_call-IsQuiet _) λ _.
          bind-IsQuiet _ _ (client-IsQuiet _ code.smdp server_tid auth_response) λ prepare.
            bind-IsQuiet _ _ (from_result-IsQuiet _ (parse_metadata prepare.b64_profile_metadata))
              λ metadata. bind-IsQuiet _ _ (progress-IsQuiet _ _) λ _.
                bind-IsQuiet _ _ (stop_if-IsQuiet _ _ (inl refl)) λ _.
                  bind-IsQuiet _ _ (show-IsQuiet _) λ _.
                    bind-IsQuiet _ _ (check_decision-IsQuiet ctl fuel deadline) λ _.
                      bind-IsQuiet _ _ (show-IsQuiet _) λ _.
                        bind-IsQuiet _ _ (prepare-IsQuiet _ prepare card_tid confirmation_code)
                          λ prepared. bind-IsQuiet _ _ (check_cancelled-IsQuiet ctl fuel) λ _.
                            bind-IsQuiet _ _ (show-IsQuiet _) λ _.
                              bind-IsQuiet _ _ (limit_call-IsQuiet _) λ _.
                                bind-IsQuiet _ _ (bpp-IsQuiet _ code.smdp server_tid prepared)
                                  λ bound_package.
                                    bind-IsQuiet _ _ (check_cancelled-IsQuiet ctl fuel) λ _.
                                      bind-IsQuiet _ _ check_time-IsQuiet
                                        λ _. next-IsQuiet bound_package
