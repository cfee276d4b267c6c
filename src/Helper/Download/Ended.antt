-- ===== src/Helper/Download/Ended.antt =====
-- What the procedure has done to the card where it stops.
use mu5250_open_ui.Base.{ℕ, ◌≡◌, ◌⊎◌, inl, inr, refl, Option, none, List, [], ◌∷◌, Bool-cases}
use mu5250_open_ui.Base.Results.{Result}
use mu5250_open_ui.Euicc.Download.Installation.{LoadBppResult, is_success}
use mu5250_open_ui.Euicc.Es8p.{ProfileMetadata}
use mu5250_open_ui.Euicc.Session.{Error, Outcome, done, failed, unfinished}
use mu5250_open_ui.Helper.Download.Interface.{Card, Server, Control}
use mu5250_open_ui.Helper.Download.Logged.{
  installing, Log, logged_card, logged_server, logged_control,
}
use mu5250_open_ui.Helper.Download.Procedure.{lost, card_refused, check_installed, install, steps}
use mu5250_open_ui.Helper.Download.Quiet.{IsEarly, KeepsLog, IsQuiet}
use mu5250_open_ui.Helper.Download.Steps.{
  ActivationCode, Session, Flow, next, stops, endless, Part, ◌>>=◌, show, perform, set_session,
  stop_with, from_card,
}
use mu5250_open_ui.Helper.Download.Stops.{Stop}
use mu5250_open_ui.Helper.Download.Early.{authenticate-IsQuiet, negotiate-IsQuiet}

-- A stop of the install: the card's answer was lost, or it refused.
abbrev pub IsLate : Stop → Type 0
IsLate e = ((f : Error) × (e ≡ lost f)) ⊎ ((result : LoadBppResult) × (e ≡ card_refused result))

module _ {W : Type 0} where
  abbrev pub Ended : {A : Type 0} → Flow (W × Log) A → Type 0
  Ended (next a s x) = x.1 ≡ installing ∷ []
  Ended (stops e s x) = ((x.1 ≡ []) × IsEarly e) ⊎ ((x.1 ≡ installing ∷ []) × IsLate e)
  Ended endless = Unit {0}

  then_flow :
      {A B : Type 0} (flow : Flow (W × Log) A) (f : A → Part (W × Log) B)
      → KeepsLog [] flow
      → ((a : A) (s : Session) (x : W × Log) → x.1 ≡ [] → Ended (f a s x))
      → Ended (elim flow [
        | next a s' w' ↦ f a s' w'
        | stops e s' w' ↦ stops e s' w'
        | endless ↦ endless
      ])
  then_flow (next a s x) f h k = k a s x h
  then_flow (stops e s x) f h k = inl h
  then_flow endless f h k = tt

  bind-Ended :
      {A B : Type 0} (m : Part (W × Log) A) (f : A → Part (W × Log) B)
      → IsQuiet m
      → ((a : A) (s : Session) (x : W × Log) → x.1 ≡ [] → Ended (f a s x))
      → (s : Session) (x : W × Log) → x.1 ≡ []
      → Ended ((m >>= f) s x)
  unfolding ◌>>=◌
  bind-Ended m f q k s x h = then_flow (m s x) f (rw (← h) (q.holds s x)) k

module _ {W : Type 0} (card : Card W) (http : Server W) (ctl : Control W) (fuel : ℕ)
    (parse_metadata : List ℕ → Result Error ProfileMetadata) where
  abbrev lc : Card (W × Log)
  lc = logged_card card

  abbrev lh : Server (W × Log)
  lh = logged_server http

  abbrev lt : Control (W × Log)
  lt = logged_control ctl

  check_installed-Ended :
      (result : LoadBppResult) (s : Session) (x : W × Log)
      → x.1 ≡ installing ∷ []
      → Ended (check_installed lc lh lt fuel parse_metadata result s x)
  unfolding check_installed ◌>>=◌ set_session stop_with
  check_installed-Ended result s x h = elim (Bool-cases (is_success result)) [
    | inl t ↦ rw t h
    | inr f ↦ rw f (inr (h, inr (result, refl)))
  ]

  loaded_flow :
      (o : Outcome W LoadBppResult) (s : Session)
      → Ended
          (elim (elim (elim o as (λ _. Outcome (W × Log) LoadBppResult) [
            | done a w' ↦ done a (w', installing ∷ [])
            | failed e w' ↦ failed e (w', installing ∷ [])
            | unfinished ↦ unfinished
          ])
              as (λ _. Flow (W × Log) LoadBppResult) [
                | done a w' ↦ next a s w'
                | failed e w' ↦ stops (lost e) s w'
                | unfinished ↦ endless
              ])
            as (λ _. Flow (W × Log) (Option (List ℕ) × ℕ)) [
              | next a s' w' ↦ check_installed lc lh lt fuel parse_metadata a s' w'
              | stops e s' w' ↦ stops e s' w'
              | endless ↦ endless
            ])
  loaded_flow (done result w) s = check_installed-Ended result s (w, installing ∷ []) refl
  loaded_flow (failed e w) s = inr (refl, inl (e, refl))
  loaded_flow unfinished s = tt

  install-Ended :
      (bound_package : List ℕ) (s : Session) (x : W × Log)
      → x.1 ≡ []
      → Ended (install lc lh lt fuel parse_metadata bound_package s x)
  unfolding install ◌>>=◌ show perform from_card logged_card logged_control
  install-Ended bound_package s x h = rw h (
      loaded_flow
        (card.load_bound_profile_package bound_package
          (ctl.progress "es10b_load_bound_profile_package" none x.0))
        s)

  module _ (code : ActivationCode) (confirmation_code : Option (List ℕ)) (deadline : ℕ) where
    pub steps-Ended :
        (s : Session) (x : W × Log)
        → x.1 ≡ []
        → Ended (steps lc lh lt fuel parse_metadata code confirmation_code deadline s x)
    unfolding steps
    steps-Ended =
        bind-Ended _ _
          (authenticate-IsQuiet card http ctl fuel parse_metadata code confirmation_code deadline)
          λ t.
            bind-Ended _ _
              (negotiate-IsQuiet card http ctl fuel parse_metadata code confirmation_code deadline
                t.0 t.1 t.2)
              λ b. install-Ended b
