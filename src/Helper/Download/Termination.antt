-- ===== src/Helper/Download/Termination.antt =====
-- A download ends in a bounded world.
use mu5250_open_ui.Base.{
  ℕ, ◌-◌, min, ◌<◌, ◌≡◌, inl, inr, refl, Bool, Option, none, some, String, List, Bool-cases, ◌&&◌,
  ltb, arith, if◌then◌else◌,
}
use mu5250_open_ui.Base.Results.{Result, ok}
use mu5250_open_ui.Euicc.Download.Installation.{LoadBppResult, is_success}
use mu5250_open_ui.Euicc.Es8p.{ProfileMetadata}
use mu5250_open_ui.Euicc.Rsp.{CancelSessionReason}
use mu5250_open_ui.Euicc.Session.{Error, Outcome, done, failed, unfinished}
use mu5250_open_ui.Helper.Download.Bounded.{Returns, IsBounded}
use mu5250_open_ui.Helper.Download.Interface.{cancel, Card, Server, Control}
use mu5250_open_ui.Helper.Download.Loops.{Came, cancelled-Came}
use mu5250_open_ui.Helper.Download.Procedure.{
  Answer, limit_call, check_time, authenticate, negotiate, check_installed, install, steps,
  clean_up, final_stop, settle_stop, download, is_failed, tell_server, answer_stop,
}
use mu5250_open_ui.Helper.Download.Steps.{
  ActivationCode, Session, Flow, next, stops, endless, install_min, preview_max, show, cancelled,
  check_cancelled,
}
use mu5250_open_ui.Helper.Download.Stops.{Stop, is_some, user}
use mu5250_open_ui.Helper.Download.Total.{
  Ends, IsTotal, bind-IsTotal, next-IsTotal, set_session-IsTotal, stop_with-IsTotal,
  stop_if-IsTotal, perform-IsTotal, from_card-IsTotal, from_server-IsTotal, from_result-IsTotal,
  check_cancelled-IsTotal, check_decision-IsTotal,
}

module _ {W : Type 0} (left : W → ℕ) (card : Card W) (http : Server W) (ctl : Control W)
    (b : IsBounded left card http ctl) (n : ℕ) (enough : preview_max < n)
    (parse_metadata : List ℕ → Result Error ProfileMetadata) where
  show-IsTotal : (step : String) → IsTotal left n (show ctl step)
  unfolding show
  show-IsTotal step = perform-IsTotal left n _ (b.progress step none)

  cancel-IsTotal : IsTotal left n (check_cancelled ctl n)
  cancel-IsTotal = check_cancelled-IsTotal left n card http ctl b

  check_installed-IsTotal :
      (result : LoadBppResult)
      → IsTotal left n (check_installed card http ctl n parse_metadata result)
  unfolding check_installed
  check_installed-IsTotal result = elim (Bool-cases (is_success result)) [
    | inl t ↦ rw t (next-IsTotal left n _)
    | inr f ↦
        rw f (
          bind-IsTotal left n _ _ (set_session-IsTotal left n none) λ _. stop_with-IsTotal left n _)
  ]

  install-IsTotal :
      (bound_package : List ℕ)
      → IsTotal left n (install card http ctl n parse_metadata bound_package)
  unfolding install
  install-IsTotal bound_package = bind-IsTotal left n _ _ (show-IsTotal _) λ _.
      bind-IsTotal left n _ _ (from_card-IsTotal left n _ _ (b.load bound_package))
        check_installed-IsTotal

  module _ (code : ActivationCode) (confirmation_code : Option (List ℕ)) (deadline : ℕ) where
    limit_call-IsTotal :
        (limit : ℕ)
        → IsTotal left n
            (limit_call card http ctl n parse_metadata code confirmation_code deadline limit)
    unfolding limit_call
    limit_call-IsTotal limit = perform-IsTotal left n _ λ w.
        let h = b.now w in
        let k = b.set_timeout (min limit (deadline - (ctl.now w).0)) (ctl.now w).1 in omega arith

    check_time-IsTotal :
        IsTotal left n (check_time card http ctl n parse_metadata code confirmation_code deadline)
    unfolding check_time
    check_time-IsTotal = record {
      ends = λ s w l.
          let h = b.now w in
          elim (Bool-cases (ltb (deadline - (ctl.now w).0) install_min)) [
            | inl t ↦ rw t (omega arith)
            | inr f ↦ rw f (omega arith)
          ];
    }

    authenticate-IsTotal :
        IsTotal left n (authenticate card http ctl n parse_metadata code confirmation_code deadline)
    unfolding authenticate
    authenticate-IsTotal = bind-IsTotal left n _ _ (stop_if-IsTotal left n _ _) λ _.
        bind-IsTotal left n _ _ (show-IsTotal _) λ _.
          bind-IsTotal left n _ _ (from_card-IsTotal left n _ _ b.challenge) λ challenge.
            bind-IsTotal left n _ _ (from_card-IsTotal left n _ _ b.info1) λ info1.
              bind-IsTotal left n _ _ cancel-IsTotal λ _.
                bind-IsTotal left n _ _ (show-IsTotal _) λ _.
                  bind-IsTotal left n _ _ (limit_call-IsTotal _) λ _.
                    bind-IsTotal left n _ _
                      (from_server-IsTotal left n _ _ (b.initiate code.smdp challenge info1))
                      λ r. bind-IsTotal left n _ _ cancel-IsTotal λ _.
                        bind-IsTotal left n _ _ (show-IsTotal _) λ _.
                          bind-IsTotal left n _ _
                            (from_card-IsTotal left n _ _
                              (b.authenticate_server r.1 (some code.matching_id) none))
                            λ t.
                              bind-IsTotal left n _ _ (set_session-IsTotal left n (some (t.0, r.0)))
                                λ _.
                                  bind-IsTotal left n _ _ cancel-IsTotal
                                    λ _. next-IsTotal left n (t.0, r.0, t.1)

    negotiate-IsTotal :
        (card_tid server_tid auth_response : List ℕ)
        → IsTotal left n (
            negotiate card http ctl n parse_metadata code confirmation_code deadline card_tid
              server_tid auth_response)
    unfolding negotiate
    negotiate-IsTotal card_tid server_tid auth_response =
        bind-IsTotal left n _ _ (show-IsTotal _) λ _.
          bind-IsTotal left n _ _ (limit_call-IsTotal _) λ _.
            bind-IsTotal left n _ _
              (from_server-IsTotal left n _ _ (b.client code.smdp server_tid auth_response))
              λ prepare.
                bind-IsTotal left n _ _
                  (from_result-IsTotal left n _ (parse_metadata prepare.b64_profile_metadata))
                  λ metadata.
                    bind-IsTotal left n _ _ (perform-IsTotal left n _ (b.progress _ _)) λ _.
                      bind-IsTotal left n _ _ (stop_if-IsTotal left n _ _) λ _.
                        bind-IsTotal left n _ _ (show-IsTotal _) λ _.
                          bind-IsTotal left n _ _
                            (check_decision-IsTotal left n card http ctl b deadline enough)
                            λ _. bind-IsTotal left n _ _ (show-IsTotal _) λ _.
                              bind-IsTotal left n _ _
                                (from_card-IsTotal left n _ _
                                  (b.prepare prepare card_tid confirmation_code))
                                λ prepared. bind-IsTotal left n _ _ cancel-IsTotal λ _.
                                  bind-IsTotal left n _ _ (show-IsTotal _) λ _.
                                    bind-IsTotal left n _ _ (limit_call-IsTotal _) λ _.
                                      bind-IsTotal left n _ _
                                        (from_server-IsTotal left n _ _
                                          (b.package_of code.smdp server_tid prepared))
                                        λ bound_package. bind-IsTotal left n _ _ cancel-IsTotal λ _.
                                          bind-IsTotal left n _ _ check_time-IsTotal
                                            λ _. next-IsTotal left n bound_package

    steps-IsTotal :
        IsTotal left n (steps card http ctl n parse_metadata code confirmation_code deadline)
    unfolding steps
    steps-IsTotal =
        bind-IsTotal left n _ _ authenticate-IsTotal
          λ t. bind-IsTotal left n _ _ (negotiate-IsTotal t.0 t.1 t.2) install-IsTotal

    abbrev Answered : Option (Answer × W) → Type 0
    Answered none = ⊥
    Answered (some r) = Unit {0}

    cleaned_flow :
        (e : Stop) (server_tid : List ℕ) (m : ℕ) (o : Outcome W (List ℕ))
        → Returns left m o
        → Answered (elim o as (λ _. Option (Answer × W)) [
          | done b64 w' ↦ some (
            answer_stop e,
            tell_server card http ctl n parse_metadata code confirmation_code deadline server_tid
                b64 e.notify_server w',
          )
          | failed f w' ↦ some (answer_stop e, w')
          | unfinished ↦ none
        ])
    cleaned_flow e server_tid m (done b64 w) h = tt
    cleaned_flow e server_tid m (failed f w) h = tt
    cleaned_flow e server_tid m unfinished h = elim h [ ]

    clean_up-Answered :
        (e : Stop) (s : Session) (reason : Option CancelSessionReason) (w : W)
        → Answered
            (clean_up card http ctl n parse_metadata code confirmation_code deadline e s reason w)
    unfolding clean_up
    clean_up-Answered e none reason w = tt
    clean_up-Answered e (some ids) none w = tt
    clean_up-Answered e (some (card_tid, server_tid)) (some reason) w =
        cleaned_flow e server_tid _ _
          (b.cancel_session card_tid reason (ctl.progress "es10b_cancel_session" none w))

    final_flow :
        (e : Stop) (s : Session) (o : Option (Bool × W))
        → Came left n o
        → Answered (
            settle_stop card http ctl n parse_metadata code confirmation_code deadline s
              (elim o as (λ _. Option (Stop × W)) [
                | none ↦ none
                | some (c, w') ↦ some (if c then user cancel else e, w')
              ]))
    final_flow e s none h = elim h [ ]
    final_flow e s (some (c, w)) h = clean_up-Answered _ s _ w

    settled-Answered :
        (e : Stop) (s : Session) (w : W)
        → left w < n
        → Answered (
            settle_stop card http ctl n parse_metadata code confirmation_code deadline s (
              if is_some e.reason && is_failed e.ending
              then final_stop card http ctl n parse_metadata code confirmation_code deadline e w
              else some (e, w)))
    unfolding final_stop
    settled-Answered e s w l = elim (Bool-cases (is_some e.reason && is_failed e.ending)) [
      | inl t ↦
          rw t (final_flow e s (cancelled ctl n w) (cancelled-Came left card http ctl b n w l))
      | inr f ↦ rw f (clean_up-Answered e s e.reason w)
    ]

    flow-Answered :
        (flow : Flow W (Option (List ℕ) × ℕ))
        → Ends left n flow
        → Answered (elim flow as (λ _. Option (Answer × W)) [
          | next result s w' ↦ some (ok result, w')
          | stops e s w' ↦
              settle_stop card http ctl n parse_metadata code confirmation_code deadline s (
                if is_some e.reason && is_failed e.ending
                then final_stop card http ctl n parse_metadata code confirmation_code deadline e w'
                else some (e, w'))
          | endless ↦ none
        ])
    flow-Answered (next result s w) h = tt
    flow-Answered (stops e s w) h = settled-Answered e s w h
    flow-Answered endless h = elim h [ ]

    download-Answered :
        (w : W)
        → left w < n
        → Answered (download card http ctl n parse_metadata code confirmation_code deadline w)
    unfolding download
    download-Answered w l = flow-Answered _ (steps-IsTotal.ends none w l)

    answer_of :
        (o : Option (Answer × W))
        → Answered o
        → (answer : Answer) × (w : W) × (o ≡ some (answer, w))
    answer_of none h = elim h [ ]
    answer_of (some (answer, w)) h = (answer, w, refl)

    -- Where the card answers every call, the clock does not go back, a wait that is in vain takes its time,
    -- and `left` bounds the control lines to be read, a download ends with an answer, whatever the user
    -- does or leaves undone: fuel above `left` and above the 130,000 milliseconds of the longest preview is
    -- enough.
    pub download_ends :
        (w : W)
        → left w < n
        → (answer : Answer) × (w' : W) × (download card http ctl n parse_metadata code
              confirmation_code deadline w
            ≡ some (answer, w'))
    download_ends w l = answer_of _ (download-Answered w l)
