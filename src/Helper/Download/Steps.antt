-- ===== src/Helper/Download/Steps.antt =====
-- esim-helper/src/download.rs: the procedure. Durations are in milliseconds. The loops that read control lines
-- end when the lines or the time end: they have fuel, and `none` and
-- `endless` mean that it ran out.
use mu5250_open_ui.Base.{
  ℕ, zero, suc, ◌+◌, ◌-◌, Bool, true, false, not, ◌||◌, Option, none, some, String, List, min, ◌==◌,
  if◌then◌else◌,
}
use mu5250_open_ui.Base.Results.{Result, ok, err}
use mu5250_open_ui.Euicc.B64.{decode}
use mu5250_open_ui.Euicc.Der.{Tlv, find}
use mu5250_open_ui.Euicc.Es9p.Status.{Es9pStatus}
use mu5250_open_ui.Euicc.Hex.{is_empty}
use mu5250_open_ui.Euicc.Session.{Error, Outcome, done, failed, unfinished}
use mu5250_open_ui.Helper.Download.Interface.{
  DownloadCtl, accept, decline, cancel, preview_timeout, message, nothing, disconnected, Control,
}
use mu5250_open_ui.Helper.Download.Stops.{Stop, fail, server_stop, user}
use mathlib.Core.List.{[], ◌∷◌}

abbrev pub auth_timeout : ℕ
auth_timeout = 30_000

abbrev pub bpp_timeout : ℕ
bpp_timeout = 120_000

abbrev pub cancel_timeout : ℕ
cancel_timeout = 10_000

abbrev pub preview_max : ℕ
preview_max = 130_000

abbrev pub install_min : ℕ
install_min = 45_000

pub record ActivationCode : Type 0 where
  pub smdp : List ℕ
  pub matching_id : List ℕ
  pub confirmation_required : Bool

-- The transaction ids of the card and of the server.
abbrev pub Session : Type 0
Session = Option (List ℕ × List ℕ)

-- What a part of the procedure leaves.
pub data Flow (W A : Type 0) : Type 0 where
  next : A → Session → W → Flow W A
  stops : Stop → Session → W → Flow W A
  endless : Flow W A

abbrev pub Part : Type 0 → Type 0 → Type 0
Part W A = Session → W → Flow W A

infixl 5 ◌>>=◌ ◌>>◌
unfoldable pub ◌>>=◌ : {W A B : Type 0} → Part W A → (A → Part W B) → Part W B
◌>>=◌ m f s w = elim (m s w) [
  | next a s' w' ↦ f a s' w'
  | stops e s' w' ↦ stops e s' w'
  | endless ↦ endless
]

abbrev pub ◌>>◌ : {W B : Type 0} → Part W (Unit {0}) → Part W B → Part W B
m >> k = m >>= λ _. k

unfoldable pub stop_with : {W A : Type 0} → Stop → Part W A
stop_with e s w = stops e s w

-- `return Err(e)` if the test holds.
unfoldable pub stop_if : {W : Type 0} → Bool → Stop → Part W (Unit {0})
stop_if true e s w = stops e s w
stop_if false e s w = next tt s w

-- A call of the card, with its error as a stop.
unfoldable pub from_card : {W A : Type 0} → (Error → Stop) → (W → Outcome W A) → Part W A
from_card stop call s w = elim (call w) [
  | done a w' ↦ next a s w'
  | failed e w' ↦ stops (stop e) s w'
  | unfinished ↦ endless
]

unfoldable pub from_server : {W A : Type 0} → String → (W → Result Es9pStatus A × W) → Part W A
from_server step call s w =
    let (r, w') = call w in elim r [ ok a ↦ next a s w' | err e ↦ stops (server_stop step e) s w' ]

unfoldable pub from_result : {W A : Type 0} → String → Result Error A → Part W A
from_result step (ok a) s w = next a s w
from_result step (err e) s w = stops (fail step e) s w

-- A change of the world alone.
unfoldable pub perform : {W : Type 0} → (W → W) → Part W (Unit {0})
perform f s w = next tt s (f w)

unfoldable pub set_session : {W : Type 0} → Session → Part W (Unit {0})
set_session s' s w = next tt s' w

-- `flag.value.iter().any(|b| *b != 0)`
unfoldable pub any_nonzero : List ℕ → Bool
any_nonzero [] = false
any_nonzero (b ∷ bs) = not (b == 0) || any_nonzero bs

abbrev pub is_flag_set : Option Tlv → Bool
is_flag_set none = false
is_flag_set (some flag) = any_nonzero flag.value

unfoldable pub confirmation_required_by_server : List ℕ → Bool
unfolding any_nonzero
confirmation_required_by_server b64_smdp_signed2 = elim (find (decode b64_smdp_signed2) 0x30) [
  | none ↦ false
  | some s ↦ is_flag_set (find s.value 0x01)
]

-- `confirmation_code.is_none_or(str::is_empty)`
abbrev pub is_missing : Option (List ℕ) → Bool
is_missing none = true
is_missing (some text) = is_empty text

abbrev pub or_255 : Option ℕ → ℕ
or_255 none = 0xff
or_255 (some n) = n

module _ {W : Type 0} (ctl : Control W) where
  -- The loop of `cancelled`.
  unfoldable pub drain : ℕ → W → Option (Bool × W)
  drain zero w = none
  drain (suc fuel) w =
      let (r, w') = ctl.try_recv w in
      elim r [
        | message d ↦ let more = drain fuel w' in elim d [ cancel ↦ some (true, w') | _ ↦ more ]
        | nothing ↦ some (false, w')
        | disconnected ↦ some (false, w')
      ]

  unfoldable pub cancelled : ℕ → W → Option (Bool × W)
  cancelled fuel w =
      let (signal, w') = ctl.signalled w in if signal then some (true, w') else drain fuel w'

  -- The loop of `decision`.
  unfoldable pub await : ℕ → ℕ → W → Option (DownloadCtl × W)
  await zero until w = none
  await (suc fuel) until w =
      let (signal, w1) = ctl.signalled w in
      let (now, w2) = ctl.now w1 in
      let slice = min (until - now) 200 in
      let (r, w3) = ctl.recv_timeout slice w2 in
      let more = await fuel until w3 in
      if signal
      then some (cancel, w1)
      else if slice == 0
      then some (preview_timeout, w2)
      else elim r [ message d ↦ some (d, w3) | nothing ↦ more | disconnected ↦ some (cancel, w3) ]

  unfoldable pub decision : ℕ → ℕ → W → Option (DownloadCtl × W)
  decision fuel deadline w =
      let (now, w') = ctl.now w in await fuel (min (now + preview_max) deadline) w'

  -- `if cancelled(ctl) { return Err(Stop::user(Cancel)) }`
  unfoldable pub check_cancelled : ℕ → Part W (Unit {0})
  check_cancelled fuel s w = elim (cancelled fuel w) [
    | some (c, w') ↦ if c then stops (user cancel) s w' else next tt s w'
    | none ↦ endless
  ]

  abbrev pub go_on_if_accepted : DownloadCtl → Part W (Unit {0})
  go_on_if_accepted accept s w = next tt s w
  go_on_if_accepted decline s w = stops (user decline) s w
  go_on_if_accepted cancel s w = stops (user cancel) s w
  go_on_if_accepted preview_timeout s w = stops (user preview_timeout) s w

  -- The match on the decision.
  unfoldable pub check_decision : ℕ → ℕ → Part W (Unit {0})
  check_decision fuel deadline s w = elim (decision fuel deadline w) [
    | some (d, w') ↦ go_on_if_accepted d s w'
    | none ↦ endless
  ]

  unfoldable pub show : String → Part W (Unit {0})
  show step = perform (ctl.progress step none)
