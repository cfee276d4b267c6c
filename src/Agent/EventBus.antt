-- ===== src/Agent/EventBus.antt =====
-- agent/src/event_bus.rs: the bus events and those who listen for them. `V` is the type of the payloads.
-- The lock is held by each `dispatch`, and the receivers take from their channels meanwhile: a schedule says
-- what they do before each event. `members` stands for the crate serde_json, which gives the members of the
-- object in a text, and `trim` for Rust's `str::trim`.
pub mod Served
pub mod Delivery
mod Tests
use mu5250_open_ui.Base.{
  ℕ, suc, ◌+◌, ◌%◌, ◌^◌, Bool, true, false, ◌&&◌, ◌||◌, Option, none, some, String, List, [], ◌∷◌,
  ◌++◌, length, ltb, ◌==◌, if◌then◌else◌,
}
use mu5250_open_ui.Base.Results.{Result, ok, err}
use mu5250_open_ui.Base.Strings.{str_eq}
use mu5250_open_ui.Base.Texts.{codes}

abbrev pub ignored_events : List String
ignored_events = "zwrt_deviceui_event.touchstatus" ∷ []

abbrev pub channel_capacity : ℕ
channel_capacity = 64

-- A channel: what its receiver has taken, what waits for it, and whether there is a receiver.
pub record Channel (V : Type 0) : Type 0 where
  pub taken : List V
  pub queue : List V
  pub connected : Bool

pub record Subscriber (V : Type 0) : Type 0 where
  pub event : List ℕ
  pub tx : Channel V
  pub dropped : ℕ

-- `tx.try_send`: nothing waits, and a full or disconnected channel refuses.
unfoldable pub try_send : {V : Type 0} → Channel V → V → Option (Channel V)
try_send tx payload =
    if tx.connected && ltb (length tx.queue) channel_capacity
    then some (record tx { queue = tx.queue ++ payload ∷ [] })
    else none

-- `dropped.fetch_add(1)` wraps.
abbrev pub sent : {V : Type 0} → Subscriber V → Option (Channel V) → Subscriber V
sent s none = record s { dropped = (s.dropped + 1) % 2 ^ 64 }
sent s (some tx) = record s { tx = tx }

-- One turn of the loop of `dispatch`.
unfoldable pub offer : {V : Type 0} → List ℕ → V → Subscriber V → Subscriber V
unfolding try_send
offer event_name payload s = if str_eq s.event event_name then sent s (try_send s.tx payload) else s

unfoldable pub dispatch : {V : Type 0} → List ℕ → V → List (Subscriber V) → List (Subscriber V)
unfolding offer
dispatch event_name payload [] = []
dispatch event_name payload (s ∷ subs) =
    offer event_name payload s ∷ dispatch event_name payload subs

unfoldable pub subscribe : {V : Type 0} → List ℕ → List (Subscriber V) → List (Subscriber V)
subscribe event_name subs =
    subs
    ++ record {
      event = event_name;
      tx = record { taken = []; queue = []; connected = true };
      dropped = 0;
    }
      ∷ []

-- `IGNORED_EVENTS.contains`
unfoldable pub is_ignored : List String → List ℕ → Bool
is_ignored [] event_name = false
is_ignored (e ∷ es) event_name = str_eq (codes e) event_name || is_ignored es event_name

-- What a receiver does: it takes the first payload that waits, if there is one, or it is dropped.
pub data Act : Type 0 where
  takes hangs_up : Act

abbrev pub take_first : {V : Type 0} → Channel V → List V → Channel V
take_first tx [] = tx
take_first tx (p ∷ ps) = record tx { taken = tx.taken ++ p ∷ []; queue = ps }

unfoldable pub act : {V : Type 0} → Act → Channel V → Channel V
act takes tx = if tx.connected then take_first tx tx.queue else tx
act hangs_up tx = record tx { connected = false }

unfoldable pub acts : {V : Type 0} → List Act → Channel V → Channel V
unfolding act
acts [] tx = tx
acts (a ∷ more) tx = acts more (act a tx)

-- What each receiver does before each event: by the number of the event and its position.
abbrev pub Schedule : Type 0
Schedule = ℕ → ℕ → List Act

-- The receivers from a position on act.
unfoldable pub meanwhile :
    {V : Type 0} → (ℕ → List Act) → ℕ → List (Subscriber V) → List (Subscriber V)
unfolding acts
meanwhile doing i [] = []
meanwhile doing i (s ∷ subs) = record s { tx = acts (doing i) s.tx } ∷ meanwhile doing (suc i) subs

-- One member of an object.
unfoldable pub event_turn : {V : Type 0} → List ℕ → V → List (Subscriber V) → List (Subscriber V)
unfolding is_ignored dispatch
event_turn event_name payload subs =
    if is_ignored ignored_events event_name then subs else dispatch event_name payload subs

-- The members of one object, with what is left of the schedule.
unfoldable pub dispatch_all :
    {V : Type 0}
    → Schedule
    → List (List ℕ × V)
    → List (Subscriber V)
    → Schedule × List (Subscriber V)
unfolding event_turn meanwhile
dispatch_all schedule [] subs = (schedule, subs)
dispatch_all schedule ((event_name, payload) ∷ obj) subs =
    dispatch_all (λ k. schedule (suc k)) obj
      (event_turn event_name payload (meanwhile (schedule 0) 0 subs))

abbrev pub or_empty : {A : Type 0} → Option (List A) → List A
or_empty none = []
or_empty (some xs) = xs

module _ {V : Type 0} (trim : List ℕ → List ℕ) (members : List ℕ → Option (List (List ℕ × V))) where
  -- The object in a line; an empty line, a text that is not JSON and a value that is no object have none.
  unfoldable pub object_of : List ℕ → List (List ℕ × V)
  object_of line =
      let trimmed = trim line in if length trimmed == 0 then [] else or_empty (members trimmed)

  -- The loop over the lines, up to the first one that cannot be read.
  unfoldable pub read_events :
      Schedule → List (Result (List ℕ) (List ℕ)) → List (Subscriber V) → List (Subscriber V)
  unfolding object_of dispatch_all
  read_events schedule [] subs = subs
  read_events schedule (err e ∷ lines) subs = subs
  read_events schedule (ok line ∷ lines) subs =
      let (schedule', subs') = dispatch_all schedule (object_of line) subs in
      read_events schedule' lines subs'
