-- ===== src/Helper/Download/Total.antt =====
-- In a bounded world the building blocks of the procedure end.
use mu5250_open_ui.Base.{
  ℕ, ◌≤◌, ◌<◌, Bool, true, false, Option, none, some, String, arith, if◌then◌else◌,
}
use mu5250_open_ui.Base.Results.{Result, ok, err}
use mu5250_open_ui.Euicc.Es9p.Status.{Es9pStatus}
use mu5250_open_ui.Euicc.Session.{Error, Outcome, done, failed, unfinished}
use mu5250_open_ui.Helper.Download.Bounded.{Returns, IsBounded}
use mu5250_open_ui.Helper.Download.Interface.{
  DownloadCtl, accept, decline, cancel, preview_timeout, Card, Server, Control,
}
use mu5250_open_ui.Helper.Download.Loops.{Came, cancelled-Came, decision-Came}
use mu5250_open_ui.Helper.Download.Steps.{
  Session, Flow, next, stops, endless, Part, ◌>>=◌, stop_with, stop_if, from_card, from_server,
  from_result, perform, set_session, check_cancelled, check_decision, go_on_if_accepted,
  preview_max, cancelled, decision,
}
use mu5250_open_ui.Helper.Download.Stops.{Stop, server_stop, user}

module _ {W : Type 0} (left : W → ℕ) (n : ℕ) where
  -- The part ended, with less than `n` left.
  abbrev pub Ends : {A : Type 0} → Flow W A → Type 0
  Ends (next a s w) = left w < n
  Ends (stops e s w) = left w < n
  Ends endless = ⊥

  pub record IsTotal {A : Type 0} (m : Part W A) : Type 0 where
    pub ends : (s : Session) (w : W) → left w < n → Ends (m s w)

  bind_flow :
      {A B : Type 0} (flow : Flow W A) (f : A → Part W B)
      → Ends flow
      → ((a : A) → IsTotal (f a))
      → Ends (elim flow [
        | next a s' w' ↦ f a s' w'
        | stops e s' w' ↦ stops e s' w'
        | endless ↦ endless
      ])
  bind_flow (next a s w) f h q = (q a).ends s w h
  bind_flow (stops e s w) f h q = h
  bind_flow endless f h q = elim h [ ]

  pub bind-IsTotal :
      {A B : Type 0} (m : Part W A) (f : A → Part W B)
      → IsTotal m
      → ((a : A) → IsTotal (f a))
      → IsTotal (m >>= f)
  unfolding ◌>>=◌
  bind-IsTotal m f h q = record { ends = λ s w l. bind_flow (m s w) f (h.ends s w l) q }

  pub next-IsTotal : {A : Type 0} (a : A) → IsTotal (next a)
  next-IsTotal a = record { ends = λ s w l. l }

  pub set_session-IsTotal : (s : Session) → IsTotal (set_session s)
  unfolding set_session
  set_session-IsTotal s = record { ends = λ s' w l. l }

  pub stop_with-IsTotal : {A : Type 0} (e : Stop) → IsTotal (stop_with {A = A} e)
  unfolding stop_with
  stop_with-IsTotal e = record { ends = λ s w l. l }

  pub stop_if-IsTotal : (b : Bool) (e : Stop) → IsTotal (stop_if b e)
  unfolding stop_if
  stop_if-IsTotal true e = record { ends = λ s w l. l }
  stop_if-IsTotal false e = record { ends = λ s w l. l }

  pub perform-IsTotal : (f : W → W) → ((w : W) → left (f w) ≤ left w) → IsTotal (perform f)
  unfolding perform
  perform-IsTotal f h = record { ends = λ s w l. let q = h w in omega arith }

  outcome_flow :
      {A : Type 0} (m : ℕ) (s : Session) (stop : Error → Stop) (o : Outcome W A)
      → Returns left m o
      → m < n
      → Ends (elim o [
        | done a w ↦ next a s w
        | failed e w ↦ stops (stop e) s w
        | unfinished ↦ endless
      ])
  outcome_flow m s stop (done a w) h l = omega arith
  outcome_flow m s stop (failed e w) h l = omega arith
  outcome_flow m s stop unfinished h l = elim h [ ]

  pub from_card-IsTotal :
      {A : Type 0} (stop : Error → Stop) (call : W → Outcome W A)
      → ((w : W) → Returns left (left w) (call w))
      → IsTotal (from_card stop call)
  unfolding from_card
  from_card-IsTotal stop call h = record {
    ends = λ s w l. outcome_flow (left w) s stop (call w) (h w) l;
  }

  pub from_result-IsTotal :
      {A : Type 0} (step : String) (r : Result Error A) → IsTotal (from_result step r)
  unfolding from_result
  from_result-IsTotal step (ok a) = record { ends = λ s w l. l }
  from_result-IsTotal step (err e) = record { ends = λ s w l. l }

  pair_flow :
      {A : Type 0} (s : Session) (step : String) (r : Result Es9pStatus A) (w : W)
      → left w < n
      → Ends (elim r [ ok a ↦ next a s w | err e ↦ stops (server_stop step e) s w ])
  pair_flow s step (ok a) w h = h
  pair_flow s step (err e) w h = h

  pub from_server-IsTotal :
      {A : Type 0} (step : String) (call : W → Result Es9pStatus A × W)
      → ((w : W) → left (call w).1 ≤ left w)
      → IsTotal (from_server step call)
  unfolding from_server
  from_server-IsTotal step call h = record {
    ends = λ s w l. let q = h w in pair_flow s step (call w).0 (call w).1 (omega arith);
  }

  module _ (card : Card W) (http : Server W) (c : Control W) (b : IsBounded left card http c) where
    cancelled_flow :
        (s : Session) (o : Option (Bool × W))
        → Came left n o
        → Ends (elim o [
          | some (b, w) ↦ if b then stops (user cancel) s w else next tt s w
          | none ↦ endless
        ])
    cancelled_flow s none h = elim h [ ]
    cancelled_flow s (some (true, w)) h = h
    cancelled_flow s (some (false, w)) h = h

    pub check_cancelled-IsTotal : IsTotal (check_cancelled c n)
    unfolding check_cancelled
    check_cancelled-IsTotal = record {
      ends = λ s w l. cancelled_flow s (cancelled c n w) (cancelled-Came left card http c b n w l);
    }

    decision_flow :
        (s : Session) (o : Option (DownloadCtl × W))
        → Came left n o
        → Ends (elim o [ some (d, w) ↦ go_on_if_accepted c d s w | none ↦ endless ])
    decision_flow s none h = elim h [ ]
    decision_flow s (some (accept, w)) h = h
    decision_flow s (some (decline, w)) h = h
    decision_flow s (some (cancel, w)) h = h
    decision_flow s (some (preview_timeout, w)) h = h

    pub check_decision-IsTotal :
        (deadline : ℕ) → preview_max < n → IsTotal (check_decision c n deadline)
    unfolding check_decision
    check_decision-IsTotal deadline enough = record {
      ends = λ s w l.
          decision_flow s (decision c n deadline w)
            (decision-Came left card http c b n deadline w enough l);
    }
