-- ===== src/Agent/Lan/Begin.antt =====
-- `begin`: what a change needs before it is pending, and what is saved first.
use mu5250_open_ui.Base.{
  ℕ, ◌≡◌, refl, sym, ap, ◌∙◌, Bool, true, false, not, Option, none, some, List, String, arith, inl,
  inr,
}
use mu5250_open_ui.Base.Strings.{str_eq_iff}
use mu5250_open_ui.Base.Results.{Result, ok, err, Result-cases, and_then-eq-ok, map_err}
use mu5250_open_ui.Agent.Auth.{hex_encode}
use mu5250_open_ui.Agent.Lan.Settings.{LanSettings, settings_eq}
use mu5250_open_ui.Agent.Router.{validate_lan_settings}
use mu5250_open_ui.Agent.Lan.{
  Manager, Binding, new_journal, Backend, Journal, Error, begin, start, save_record, begun, require,
  busy, invalid, changed, prepare, is_some, backend,
}

require-ok : (t : Bool) (e : Error) {u : Unit {0}} → require t e ≡ ok u → t ≡ true
require-ok true e h = refl
require-ok false e h = absurd (ground (arith, h))

map_err-ok : {E A : Type 0} (g : E → Error) (r : Result E A) {a : A} → map_err g r ≡ ok a → r ≡ ok a
map_err-ok g (ok a) h = ground (arith, h)
map_err-ok g (err e) h = absurd (ground (arith, h))

not_some : {A : Type 0} (o : Option A) → not (is_some o) ≡ true → o ≡ none
not_some none h = refl
not_some (some a) h = absurd (ground (arith, h))

-- What a change to be begun went through.
pub record IsPrepared {W : Type 0} (b : Backend W) (random : Result String (List ℕ))
    (proposed : LanSettings) (m : Manager) (w : W) (j : Journal) : Type 0 where
  pub idle : m.pending ≡ none
  pub no_record : b.load w ≡ ok none
  pub is_proposed : j.proposed ≡ proposed
  pub proposed_valid : validate_lan_settings proposed ≡ ok tt
  pub was_read : b.read w ≡ ok j.previous
  pub previous_valid : validate_lan_settings j.previous ≡ ok tt
  pub differs : settings_eq j.previous proposed ≡ false
  pub keeps_address : m.binding.fixed ≡ true → j.previous.ipaddr ≡ proposed.ipaddr
  pub has_token : (bytes : List ℕ) × (random ≡ ok bytes) × (j.token ≡ hex_encode bytes)

new_journal_sound :
    (random : Result String (List ℕ)) (proposed : LanSettings) (bound : Binding)
    (previous : LanSettings) {j : Journal}
    → new_journal random proposed bound previous ≡ ok (some j)
    → (j.previous ≡ previous)
      × (j.proposed ≡ proposed)
      × (settings_eq previous proposed ≡ false)
      × (bound.fixed ≡ true → previous.ipaddr ≡ proposed.ipaddr)
      × ((bytes : List ℕ) × (random ≡ ok bytes) × (j.token ≡ hex_encode bytes))
unfolding new_journal
new_journal_sound random proposed bound previous h = elim (Result-cases random) [
  | inr (e, x) ↦ absurd (ground arith)
  | inl (bytes, x) ↦ (
    ground arith,
    ground arith,
    ground arith,
    λ t. ground (arith, str_eq_iff previous.ipaddr proposed.ipaddr),
    (bytes, x, ground arith),
  )
]

module _ {W : Type 0} (b : Backend W) (random : Result String (List ℕ)) (proposed : LanSettings)
    (m : Manager) (w : W) where
  prepare_sound :
      {j : Journal}
      → prepare b random proposed m w ≡ ok (some j)
      → IsPrepared b random proposed m w j
  unfolding prepare
  prepare_sound {j} h =
      let (_, h1, k1) = and_then-eq-ok (require (not (is_some m.pending)) busy) _ h in
      let (found, h2, k2) = and_then-eq-ok (map_err backend (b.load w)) _ k1 in
      let (_, h3, k3) = and_then-eq-ok (require (not (is_some found)) busy) _ k2 in
      let (_, h4, k4) = and_then-eq-ok (map_err invalid (validate_lan_settings proposed)) _ k3 in
      let (previous, h5, k5) = and_then-eq-ok (map_err backend (b.read w)) _ k4 in
      let (_, h6, k6) = and_then-eq-ok (map_err invalid (validate_lan_settings previous)) _ k5 in
      let (same, prop, neq, fixed, token) =
        new_journal_sound random proposed m.binding previous k6 in
      record {
        idle = not_some m.pending (require-ok (not (is_some m.pending)) busy h1);
        no_record =
            map_err-ok backend (b.load w) h2
            ∙ ap ok (not_some found (require-ok (not (is_some found)) busy h3));
        is_proposed = prop;
        proposed_valid = map_err-ok invalid (validate_lan_settings proposed) h4;
        was_read = map_err-ok backend (b.read w) h5 ∙ ap ok (sym same);
        previous_valid = rw same (map_err-ok invalid (validate_lan_settings previous) h6);
        differs = rw same neq;
        keeps_address = rw same fixed;
        has_token = token;
      }

  start_sound :
      (now : ℕ) (r : Result Error (Option Journal)) {ip token : List ℕ} {secs : ℕ}
      → (start b now r m w).0.1 ≡ ok (changed ip token secs)
      → (j : Journal) × (r ≡ ok (some j))
        × ((b.save j w).0 ≡ ok tt)
        × (ip ≡ j.proposed.ipaddr)
        × (token ≡ j.token)
        × (start b now r m w ≡ ((begun now j m, ok (changed ip token secs)), (b.save j w).1))
  unfolding start save_record
  start_sound now (err e) h = absurd (ground (arith, h))
  start_sound now (ok none) h = absurd (ground (arith, h))
  start_sound now (ok (some j)) h = elim (Result-cases (b.save j w).0) [
    | inr (e, x) ↦ absurd (ground arith)
    | inl (_, x) ↦ (j, refl, x, ground arith, ground arith, ground arith)
  ]

  -- A change is announced only after every test passed, with no other change or record in the way:
  -- its record, of the settings read and the proposed ones, both valid and different, was saved; it is
  -- pending for 120 seconds from then, and a fixed listener's address is the same in both.
  pub begin_sound :
      (now : ℕ) {ip token : List ℕ} {secs : ℕ}
      → (begin b now random proposed m w).0.1 ≡ ok (changed ip token secs)
      → (j : Journal) × IsPrepared b random proposed m w j
        × ((b.save j w).0 ≡ ok tt)
        × (ip ≡ proposed.ipaddr)
        × (token ≡ j.token)
        × (begin b now random proposed m w
            ≡ ((begun now j m, ok (changed ip token secs)), (b.save j w).1))
  unfolding begin
  begin_sound now h =
      let (j, r, s, i, t, e) = start_sound now (prepare b random proposed m w) h in
      let prepared = prepare_sound r in
      (j, prepared, s, i ∙ ap (λ x. x.ipaddr) prepared.is_proposed, t, e)

  -- A change that is refused leaves the state of the manager as it was.
  pub begin_failure_keeps :
      (now : ℕ) {e : Error}
      → (begin b now random proposed m w).0.1 ≡ err e
      → (begin b now random proposed m w).0.0 ≡ m
  unfolding begin start save_record
  begin_failure_keeps now h = ground arith
