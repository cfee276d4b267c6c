-- ===== src/Helper/Download/Endings.antt =====
-- What a download has done to the card when it ends, for each way in which it ends.
use mu5250_open_ui.Base.{
  ℕ, ◌≡◌, ◌⊎◌, inl, inr, refl, sym, ap, ◌∙◌, Bool, true, false, Option, none, some, String, List,
  [], ◌∷◌, ◌++◌, ◌&&◌, Bool-cases, if◌then◌else◌,
}
use mathlib.Core.Path.{subst}
use mu5250_open_ui.Base.Results.{Result, ok, err}
use mu5250_open_ui.Euicc.Download.Installation.{LoadBppResult}
use mu5250_open_ui.Euicc.Es8p.{ProfileMetadata}
use mu5250_open_ui.Euicc.Rsp.{CancelSessionReason, load_bpp_execution_error}
use mu5250_open_ui.Euicc.Session.{Error, Outcome, done, failed, unfinished}
use mu5250_open_ui.Helper.Download.Interface.{DownloadCtl, cancel, Card, Server, Control}
use mu5250_open_ui.Helper.Download.Logged.{
  installing, cancelling, Log, logged_card, logged_server, logged_control,
}
use mu5250_open_ui.Helper.Download.Procedure.{
  Answer, lost, card_refused, steps, tell_server, clean_up, final_stop, settle_stop, download,
  answer_stop, is_failed,
}
use mu5250_open_ui.Helper.Download.Quiet.{IsEarly, KeepsWait, cancelled-KeepsWait}
use mu5250_open_ui.Helper.Download.Steps.{
  ActivationCode, Session, Flow, next, stops, endless, cancelled,
}
use mu5250_open_ui.Helper.Download.Stops
use mu5250_open_ui.Helper.Download.Stops.{
  Stop, Ending, Message, user, user_reason, is_some, stopped, plain, card_stop, refused,
}
use mu5250_open_ui.Helper.Download.Ended.{IsLate, Ended, steps-Ended}

-- What the log of a download holds for its answer.
abbrev pub Verdict : Answer → Log → Type 0
Verdict (ok installed) log = log ≡ installing ∷ []
Verdict (err (Stops.cancelled, m)) log =
    (log ≡ []) ⊎ ((tid : List ℕ) × (d : DownloadCtl) × (log ≡ cancelling tid (user_reason d) ∷ []))
Verdict (err (Stops.failed, m)) log =
    (log ≡ [])
    ⊎ ((tid : List ℕ) × (reason : CancelSessionReason) × (log ≡ cancelling tid reason ∷ []))
    ⊎ ((command reason : String) × (m ≡ refused command reason) × (log ≡ installing ∷ []))
Verdict (err (Stops.unknown, m)) log =
    (log ≡ installing ∷ [])
    ⊎ ((tid : List ℕ) × (log ≡ installing ∷ (cancelling tid load_bpp_execution_error ∷ [])))

module _ {W : Type 0} where
  -- A download that ends has the log that its answer promises.
  abbrev pub Settled : Option (Answer × (W × Log)) → Type 0
  Settled none = Unit {0}
  Settled (some (answer, x)) = Verdict answer x.1

-- What the cleaning after a stop does to the log.
abbrev Cleans : Option CancelSessionReason → Log → Log → Type 0
Cleans reason log log' =
    (log' ≡ log)
    ⊎ ((tid : List ℕ) × (r : CancelSessionReason) × (reason ≡ some r)
        × (log' ≡ log ++ cancelling tid r ∷ []))

module _ {W : Type 0} (card : Card W) (http : Server W) (ctl : Control W) (fuel : ℕ)
    (parse_metadata : List ℕ → Result Error ProfileMetadata) where
  abbrev lc : Card (W × Log)
  lc = logged_card card

  abbrev lh : Server (W × Log)
  lh = logged_server http

  abbrev lt : Control (W × Log)
  lt = logged_control ctl

  module _ (code : ActivationCode) (confirmation_code : Option (List ℕ)) (deadline : ℕ) where
    told :
        (server_tid b64 : List ℕ) (notify : Bool) (x : W × Log)
        → (tell_server lc lh lt fuel parse_metadata code confirmation_code deadline server_tid b64
            notify x).1
          ≡ x.1
    unfolding logged_server logged_control
    told server_tid b64 true x = refl
    told server_tid b64 false x = refl

    module _ (e : Stop) (log : Log) where
      cleaned_flow :
          (card_tid server_tid : List ℕ) (reason : CancelSessionReason) (o : Outcome W (List ℕ))
          → ((log' : Log) → Cleans (some reason) log log' → Verdict (answer_stop e) log')
          → Settled
              (elim (elim o as (λ _. Outcome (W × Log) (List ℕ)) [
                | done a w' ↦ done a (w', log ++ cancelling card_tid reason ∷ [])
                | failed f w' ↦ failed f (w', log ++ cancelling card_tid reason ∷ [])
                | unfinished ↦ unfinished
              ])
                as (λ _. Option (Answer × (W × Log))) [
                  | done b64 x ↦ some (
                    answer_stop e,
                    tell_server lc lh lt fuel parse_metadata code confirmation_code deadline
                        server_tid b64 e.notify_server x,
                  )
                  | failed f x ↦ some (answer_stop e, x)
                  | unfinished ↦ none
                ])
      cleaned_flow card_tid server_tid reason (done b64 w) v =
          rw (told server_tid b64 e.notify_server (w, log ++ cancelling card_tid reason ∷ []))
            (v _ (inr (card_tid, reason, refl, refl)))
      cleaned_flow card_tid server_tid reason (failed f w) v =
          v _ (inr (card_tid, reason, refl, refl))
      cleaned_flow card_tid server_tid reason unfinished v = tt

      clean_up-Settled :
          (s : Session) (reason : Option CancelSessionReason) (w : W)
          → ((log' : Log) → Cleans reason log log' → Verdict (answer_stop e) log')
          → Settled (
              clean_up lc lh lt fuel parse_metadata code confirmation_code deadline e s reason
                (w, log))
      unfolding clean_up logged_card logged_control
      clean_up-Settled none reason w v = v log (inl refl)
      clean_up-Settled (some ids) none w v = v log (inl refl)
      clean_up-Settled (some (card_tid, server_tid)) (some reason) w v =
          cleaned_flow card_tid server_tid reason
            (card.cancel_session card_tid reason (ctl.progress "es10b_cancel_session" none w)) v

    user-Verdict :
        (d : DownloadCtl) (log' : Log)
        → Cleans (some (user_reason d)) [] log'
        → Verdict (answer_stop (user d)) log'
    user-Verdict d log' (inl h) = inl h
    user-Verdict d log' (inr (tid, r, e, h)) =
        let same : user_reason d ≡ r = cc in
        inr (tid, d, h ∙ ap (λ q. cancelling tid q ∷ []) (sym same))

    failed-Verdict :
        (e : Stop) (log' : Log)
        → e.ending ≡ Stops.failed
        → Cleans e.reason [] log'
        → Verdict (answer_stop e) log'
    failed-Verdict e log' f (inl h) = rw f (inl h)
    failed-Verdict e log' f (inr (tid, r, g, h)) = rw f (inr (inl (tid, r, h)))

    lost-Verdict :
        (f : Error) (log' : Log)
        → Cleans (lost f).reason (installing ∷ []) log'
        → Verdict (answer_stop (lost f)) log'
    lost-Verdict f log' (inl h) = inl h
    lost-Verdict f log' (inr (tid, r, g, h)) =
        let same : load_bpp_execution_error ≡ r = cc in
        inr (tid, h ∙ ap (λ q. installing ∷ (cancelling tid q ∷ [])) (sym same))

    refused-Verdict :
        (result : LoadBppResult) (log' : Log)
        → Cleans none (installing ∷ []) log'
        → Verdict (answer_stop (card_refused result)) log'
    refused-Verdict result log' (inl h) = inr (inr (_, _, refl, h))
    refused-Verdict result log' (inr (tid, r, g, h)) = cc

    failed-Settled :
        (e : Stop) (s : Session) (x : W × Log)
        → x.1 ≡ []
        → e.ending ≡ Stops.failed
        → Settled
            (clean_up lc lh lt fuel parse_metadata code confirmation_code deadline e s e.reason x)
    failed-Settled e s (w, log) h f =
        rw h (clean_up-Settled e [] s e.reason w (λ log' c. failed-Verdict e log' f c))

    user-Settled :
        (d : DownloadCtl) (s : Session) (x : W × Log)
        → x.1 ≡ []
        → Settled (
            clean_up lc lh lt fuel parse_metadata code confirmation_code deadline
              (user d)
              s
              (some (user_reason d))
              x)
    user-Settled d s (w, log) h =
        rw h (clean_up-Settled (user d) [] s (some (user_reason d)) w (user-Verdict d))

    final_flow :
        (e : Stop) (s : Session) (o : Option (Bool × (W × Log)))
        → e.ending ≡ Stops.failed
        → KeepsWait [] o
        → Settled (
            settle_stop lc lh lt fuel parse_metadata code confirmation_code deadline s
              (elim o as (λ _. Option (Stop × (W × Log))) [
                | none ↦ none
                | some (c, w') ↦ some (if c then user cancel else e, w')
              ]))
    final_flow e s none f h = tt
    final_flow e s (some (true, x)) f h = user-Settled cancel s x h
    final_flow e s (some (false, x)) f h = failed-Settled e s x h f

    -- What is settled about a stop: `download` behind the procedure.
    abbrev settled : Stop → Session → W × Log → Option (Answer × (W × Log))
    settled e s x = settle_stop lc lh lt fuel parse_metadata code confirmation_code deadline s (
        if is_some e.reason && is_failed e.ending
        then final_stop lc lh lt fuel parse_metadata code confirmation_code deadline e x
        else some (e, x))

    early-Settled :
        (e : Stop) (s : Session) (x : W × Log) → x.1 ≡ [] → IsEarly e → Settled (settled e s x)
    unfolding final_stop
    early-Settled e s x h (inl f) = elim (Bool-cases (is_some e.reason && is_failed e.ending)) [
      | inl t ↦ rw t (
          final_flow e s (cancelled lt fuel x) f (
            subst (λ log. KeepsWait {B = Bool} log (cancelled lt fuel x)) h
              (cancelled-KeepsWait ctl fuel x)))
      | inr t ↦ rw t (failed-Settled e s x h f)
    ]
    early-Settled e s x h (inr (d, same)) = rw same (user-Settled d s x h)

    late-Settled :
        (e : Stop) (s : Session) (x : W × Log)
        → x.1 ≡ installing ∷ []
        → IsLate e
        → Settled (settled e s x)
    late-Settled e s (w, log) h (inl (f, same)) = rw same (
        rw h (
          clean_up-Settled (lost f) (installing ∷ []) s (some load_bpp_execution_error) w
            (lost-Verdict f)))
    late-Settled e s (w, log) h (inr (result, same)) = rw same (
        rw h (
          clean_up-Settled (card_refused result) (installing ∷ []) s none w
            (refused-Verdict result)))

    Ended-flow :
        (flow : Flow (W × Log) (Option (List ℕ) × ℕ))
        → Ended flow
        → Settled (elim flow as (λ _. Option (Answer × (W × Log))) [
          | next result s x ↦ some (ok result, x)
          | stops e s x ↦ settled e s x
          | endless ↦ none
        ])
    Ended-flow (next result s x) h = h
    Ended-flow (stops e s x) (inl (h, early)) = early-Settled e s x h early
    Ended-flow (stops e s x) (inr (h, late)) = late-Settled e s x h late
    Ended-flow endless h = tt

    -- Whatever the card, the server, the user and the clock do, a download that ends has done to the card
    -- what its answer says. With the profile it made one attempt to install and cancelled nothing. Cancelled:
    -- no attempt, and at most one cancellation, with the reason of a decision of the user. Failed: no
    -- attempt and at most one cancellation, or one attempt that the card refused and no
    -- cancellation. Unknown: one attempt, and at most one cancellation behind it, for a failed install.
    pub download-Settled :
        (w : W)
        → Settled (download lc lh lt fuel parse_metadata code confirmation_code deadline (w, []))
    unfolding download
    download-Settled w =
        Ended-flow (steps lc lh lt fuel parse_metadata code confirmation_code deadline none (w, []))
          (steps-Ended card http ctl fuel parse_metadata code confirmation_code deadline none
            (w, []) refl)
