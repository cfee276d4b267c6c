-- ===== src/Helper/Download/Quiet.antt =====
-- The parts of the procedure before the install neither install a profile nor cancel a session, and they stop
-- with a failure or a decision of the user.
use mu5250_open_ui.Base.{
  ℕ, zero, suc, ◌-◌, min, ◌≡◌, ◌⊎◌, inl, inr, refl, Bool, true, false, Option, none, some, String,
  Bool-cases, ◌==◌, arith, if◌then◌else◌,
}
use mu5250_open_ui.Base.Results.{Result, ok, err}
use mu5250_open_ui.Euicc.Es9p.Status.{Es9pStatus}
use mu5250_open_ui.Euicc.Session.{Error, Outcome, done, failed, unfinished}
use mu5250_open_ui.Helper.Download.Interface.{
  DownloadCtl, accept, decline, cancel, preview_timeout, Received, message, nothing, disconnected,
  Control,
}
use mu5250_open_ui.Helper.Download.Logged.{Log, quietly, through, logged_control}
use mu5250_open_ui.Helper.Download.Steps.{
  Session, Flow, next, stops, endless, Part, ◌>>=◌, stop_if, from_card, from_server, from_result,
  perform, set_session, drain, cancelled, await, decision, check_cancelled, check_decision,
  go_on_if_accepted,
}
use mu5250_open_ui.Helper.Download.Stops
use mu5250_open_ui.Helper.Download.Stops.{Stop, fail, card_stop, server_stop, user}

-- A stop of a part before the install.
abbrev pub IsEarly : Stop → Type 0
IsEarly e = (e.ending ≡ Stops.failed) ⊎ ((d : DownloadCtl) × (e ≡ user d))

server_stop-IsEarly : (step : String) (e : Es9pStatus) → IsEarly (server_stop step e)
unfolding server_stop
server_stop-IsEarly step e = inl (ground arith)

module _ {W : Type 0} where
  -- The flow leaves the log as it was.
  abbrev pub KeepsLog : {A : Type 0} → Log → Flow (W × Log) A → Type 0
  KeepsLog log (next a s x) = x.1 ≡ log
  KeepsLog log (stops e s x) = (x.1 ≡ log) × IsEarly e
  KeepsLog log endless = Unit {0}

  pub record IsQuiet {A : Type 0} (m : Part (W × Log) A) : Type 0 where
    pub holds : (s : Session) (x : W × Log) → KeepsLog x.1 (m s x)

  bind_flow :
      {A B : Type 0} (log : Log) (flow : Flow (W × Log) A) (f : A → Part (W × Log) B)
      → KeepsLog log flow
      → ((a : A) → IsQuiet (f a))
      → KeepsLog log (elim flow [
        | next a s' w' ↦ f a s' w'
        | stops e s' w' ↦ stops e s' w'
        | endless ↦ endless
      ])
  bind_flow log (next a s x) f h q = rw (← h) ((q a).holds s x)
  bind_flow log (stops e s x) f h q = h
  bind_flow log endless f h q = tt

  pub bind-IsQuiet :
      {A B : Type 0} (m : Part (W × Log) A) (f : A → Part (W × Log) B)
      → IsQuiet m
      → ((a : A) → IsQuiet (f a))
      → IsQuiet (m >>= f)
  unfolding ◌>>=◌
  bind-IsQuiet m f h q = record { holds = λ s x. bind_flow x.1 (m s x) f (h.holds s x) q }

  pub next-IsQuiet : {A : Type 0} (a : A) → IsQuiet (next a)
  next-IsQuiet a = record { holds = λ s x. refl }

  pub set_session-IsQuiet : (s : Session) → IsQuiet (set_session s)
  unfolding set_session
  set_session-IsQuiet s = record { holds = λ s' x. refl }

  pub perform-IsQuiet :
      (f : W × Log → W × Log) → ((x : W × Log) → (f x).1 ≡ x.1) → IsQuiet (perform f)
  unfolding perform
  perform-IsQuiet f h = record { holds = λ s x. h x }

  pub stop_if-IsQuiet : (b : Bool) (e : Stop) → IsEarly e → IsQuiet (stop_if b e)
  unfolding stop_if
  stop_if-IsQuiet true e h = record { holds = λ s x. (refl, h) }
  stop_if-IsQuiet false e h = record { holds = λ s x. refl }

  abbrev logged_outcome : {A : Type 0} → Log → Outcome W A → Outcome (W × Log) A
  logged_outcome log (done a w) = done a (w, log)
  logged_outcome log (failed e w) = failed e (w, log)
  logged_outcome log unfinished = unfinished

  outcome_flow :
      {A : Type 0} (log : Log) (s : Session) (stop : Error → Stop) (o : Outcome W A)
      → ((e : Error) → IsEarly (stop e))
      → KeepsLog log (elim (logged_outcome log o) [
        | done a x ↦ next a s x
        | failed e x ↦ stops (stop e) s x
        | unfinished ↦ endless
      ])
  outcome_flow log s stop (done a w) h = refl
  outcome_flow log s stop (failed e w) h = (refl, h e)
  outcome_flow log s stop unfinished h = tt

  pub from_card-IsQuiet :
      {A : Type 0} (stop : Error → Stop) (call : W → Outcome W A)
      → ((e : Error) → IsEarly (stop e))
      → IsQuiet (from_card stop (quietly call))
  unfolding from_card
  from_card-IsQuiet stop call h = record { holds = λ s x. outcome_flow x.1 s stop (call x.0) h }

  pub from_result-IsQuiet :
      {A : Type 0} (step : String) (r : Result Error A) → IsQuiet (from_result step r)
  unfolding from_result
  from_result-IsQuiet step (ok a) = record { holds = λ s x. refl }
  from_result-IsQuiet step (err e) = record { holds = λ s x. (refl, inl refl) }

  from_pair :
      {A : Type 0} (log : Log) (s : Session) (step : String) (r : Result Es9pStatus A) (x : W × Log)
      → x.1 ≡ log
      → KeepsLog log (elim r [ ok a ↦ next a s x | err e ↦ stops (server_stop step e) s x ])
  from_pair log s step (ok a) x h = h
  from_pair log s step (err e) x h = (h, server_stop-IsEarly step e)

  pub from_server-IsQuiet :
      {A : Type 0} (step : String) (call : W → Result Es9pStatus A × W)
      → IsQuiet (from_server step (through call))
  unfolding from_server
  from_server-IsQuiet step call = record {
    holds = λ s x. from_pair x.1 s step (call x.0).0 ((call x.0).1, x.1) refl;
  }

  abbrev pub KeepsWait : {B : Type 0} → Log → Option (B × (W × Log)) → Type 0
  KeepsWait log none = Unit {0}
  KeepsWait log (some (b, x)) = x.1 ≡ log

  module _ (c : Control W) where
    drained :
        (log : Log) (r : Received) (x : W × Log) (more : Option (Bool × (W × Log)))
        → x.1 ≡ log
        → KeepsWait log more
        → KeepsWait log (elim r [
          | message d ↦ elim d [ cancel ↦ some (true, x) | _ ↦ more ]
          | nothing ↦ some (false, x)
          | disconnected ↦ some (false, x)
        ])
    drained log (message accept) x more h k = k
    drained log (message decline) x more h k = k
    drained log (message cancel) x more h k = h
    drained log (message preview_timeout) x more h k = k
    drained log nothing x more h k = h
    drained log disconnected x more h k = h

    drain-KeepsWait : (fuel : ℕ) (x : W × Log) → KeepsWait x.1 (drain (logged_control c) fuel x)
    unfolding drain logged_control
    drain-KeepsWait zero x = tt
    drain-KeepsWait (suc fuel) x =
        let x' : W × Log = ((c.try_recv x.0).1, x.1) in
        drained x.1 (c.try_recv x.0).0 x' (drain (logged_control c) fuel x') refl
          (drain-KeepsWait fuel x')

    pub cancelled-KeepsWait :
        (fuel : ℕ) (x : W × Log) → KeepsWait x.1 (cancelled (logged_control c) fuel x)
    unfolding cancelled logged_control
    cancelled-KeepsWait fuel x = elim (Bool-cases (c.signalled x.0).0) [
      | inl t ↦ rw t refl
      | inr f ↦ rw f (drain-KeepsWait fuel ((c.signalled x.0).1, x.1))
    ]

    awaited :
        (log : Log) (signal none_left : Bool) (r : Received) (x1 x2 x3 : W × Log)
        (more : Option (DownloadCtl × (W × Log)))
        → x1.1 ≡ log
        → x2.1 ≡ log
        → x3.1 ≡ log
        → KeepsWait log more
        → KeepsWait log (
            if signal
            then some (cancel, x1)
            else if none_left
            then some (preview_timeout, x2)
            else elim r [
              | message d ↦ some (d, x3)
              | nothing ↦ more
              | disconnected ↦ some (cancel, x3)
            ])
    awaited log true none_left r x1 x2 x3 more h1 h2 h3 k = h1
    awaited log false true r x1 x2 x3 more h1 h2 h3 k = h2
    awaited log false false (message d) x1 x2 x3 more h1 h2 h3 k = h3
    awaited log false false nothing x1 x2 x3 more h1 h2 h3 k = k
    awaited log false false disconnected x1 x2 x3 more h1 h2 h3 k = h3

    await-KeepsWait :
        (fuel until : ℕ) (x : W × Log) → KeepsWait x.1 (await (logged_control c) fuel until x)
    unfolding await logged_control
    await-KeepsWait zero until x = tt
    await-KeepsWait (suc fuel) until x =
        let w1 = (c.signalled x.0).1 in
        let w2 = (c.now w1).1 in
        let slice = min (until - (c.now w1).0) 200 in
        let w3 = (c.recv_timeout slice w2).1 in
        awaited x.1 (c.signalled x.0).0 (slice == 0) (c.recv_timeout slice w2).0 (w1, x.1) (w2, x.1)
          (w3, x.1) (await (logged_control c) fuel until (w3, x.1)) refl refl refl
          (await-KeepsWait fuel until (w3, x.1))

    decision-KeepsWait :
        (fuel deadline : ℕ) (x : W × Log)
        → KeepsWait x.1 (decision (logged_control c) fuel deadline x)
    unfolding decision logged_control
    decision-KeepsWait fuel deadline x = await-KeepsWait fuel _ ((c.now x.0).1, x.1)

    cancelled_flow :
        (log : Log) (s : Session) (o : Option (Bool × (W × Log)))
        → KeepsWait log o
        → KeepsLog log (elim o [
          | some (b, x) ↦ if b then stops (user cancel) s x else next tt s x
          | none ↦ endless
        ])
    cancelled_flow log s none h = tt
    cancelled_flow log s (some (true, x)) h = (h, inr (cancel, refl))
    cancelled_flow log s (some (false, x)) h = h

    pub check_cancelled-IsQuiet : (fuel : ℕ) → IsQuiet (check_cancelled (logged_control c) fuel)
    unfolding check_cancelled
    check_cancelled-IsQuiet fuel = record {
      holds = λ s x.
          cancelled_flow x.1 s (cancelled (logged_control c) fuel x) (cancelled-KeepsWait fuel x);
    }

    decision_flow :
        (log : Log) (s : Session) (o : Option (DownloadCtl × (W × Log)))
        → KeepsWait log o
        → KeepsLog log
            (elim o [ some (d, x) ↦ go_on_if_accepted (logged_control c) d s x | none ↦ endless ])
    decision_flow log s none h = tt
    decision_flow log s (some (accept, x)) h = h
    decision_flow log s (some (decline, x)) h = (h, inr (decline, refl))
    decision_flow log s (some (cancel, x)) h = (h, inr (cancel, refl))
    decision_flow log s (some (preview_timeout, x)) h = (h, inr (preview_timeout, refl))

    pub check_decision-IsQuiet :
        (fuel deadline : ℕ) → IsQuiet (check_decision (logged_control c) fuel deadline)
    unfolding check_decision
    check_decision-IsQuiet fuel deadline = record {
      holds = λ s x.
          decision_flow x.1 s (decision (logged_control c) fuel deadline x)
            (decision-KeepsWait fuel deadline x);
    }
