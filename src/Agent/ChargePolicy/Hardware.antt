-- ===== src/Agent/ChargePolicy/Hardware.antt =====
-- `impl Charger for Hardware` in agent/src/charge_policy.rs, over the calls of ubus that it makes.
-- What ubus answers is a parameter: the field `direct_power_supply_mode`, if it is a text.
use mu5250_open_ui.Base.{
  ℕ, zero, suc, ◌≡◌, ap, ◌∙◌, Bool, true, false, String, arith, if◌then◌else◌, Bool-cases, inl, inr,
}
use mu5250_open_ui.Base.Results.{Result, ok, err, Result-cases}
use mu5250_open_ui.Agent.ChargePolicy.{bool_eq}

pub data Mode : Type 0 where
  enable disable unknown : Mode

pub record Ubus (W : Type 0) : Type 0 where
  -- `zwrt_bsp.charger list`
  pub list : W → Result String Mode × W
  -- `zwrt_bsp.charger set`
  pub set : Mode → W → Result String (Unit {0}) × W
  pub sleep : W → W

-- The firmware's meaning is inverted.
unfoldable pub mode_state : Result String Mode → Result String Bool
mode_state (ok enable) = ok true
mode_state (ok disable) = ok false
mode_state (ok unknown) = err "charger control state is unavailable"
mode_state (err e) = err e

bool_eq_sound : (a b : Bool) → bool_eq a b ≡ true → a ≡ b
unfolding bool_eq
bool_eq_sound a b h = ground arith

module _ {W : Type 0} (u : Ubus W) where
  unfoldable pub stopped_state : W → Result String Bool × W
  stopped_state w = let (r, w') = u.list w in (mode_state r, w')

  -- `for _ in 0..3`: one reading, and what follows it.
  unfoldable pub confirm_loop : ℕ → Bool → W → Result String (Unit {0}) × W
  confirm_loop zero stopped w = (err "charger did not confirm the requested state", w)
  confirm_loop (suc rounds) stopped w =
      let w' = (stopped_state w).1 in
      let more = confirm_loop rounds stopped (u.sleep w') in
      elim (stopped_state w).0 [
        | err e ↦ (err e, w')
        | ok state ↦ if bool_eq state stopped then (ok tt, w') else more
      ]

  unfoldable pub after_set : Bool → Result String (Unit {0}) × W → Result String (Unit {0}) × W
  after_set stopped (err e, w) = (err e, w)
  after_set stopped (ok _, w) = confirm_loop 3 stopped w

  unfoldable pub set_stopped : Bool → W → Result String (Unit {0}) × W
  set_stopped stopped w = after_set stopped (u.set (if stopped then enable else disable) w)

  confirm_loop_sound :
      (rounds : ℕ) (b : Bool) (w : W)
      → (confirm_loop rounds b w).0 ≡ ok tt
      → (v : W) × ((stopped_state v).0 ≡ ok b) × ((stopped_state v).1 ≡ (confirm_loop rounds b w).1)
  unfolding confirm_loop
  confirm_loop_sound zero b w h = absurd (ground arith)
  confirm_loop_sound (suc rounds) b w h = elim (Result-cases (stopped_state w).0) [
    | inr (e, p) ↦ absurd (ground (arith, p))
    | inl (a, p) ↦ elim (Bool-cases (bool_eq a b)) [
      | inl q ↦ (w, p ∙ ap ok (bool_eq_sound a b q), ground (arith, p, q))
      | inr q ↦
          let (v, r, t) =
            confirm_loop_sound rounds b (u.sleep (stopped_state w).1) (ground (arith, p, q, h)) in
          (v, r, t ∙ ground (arith, p, q))
    ]
  ]

  after_set_sound :
      (b : Bool) (r : Result String (Unit {0}) × W)
      → (after_set b r).0 ≡ ok tt
      → (v : W) × ((stopped_state v).0 ≡ ok b) × ((stopped_state v).1 ≡ (after_set b r).1)
  unfolding after_set
  after_set_sound b (err e, w) h = absurd (ground arith)
  after_set_sound b (ok _, w) h = confirm_loop_sound 3 b w h

  -- The charger command succeeds only if a reading after it showed the requested state, and that
  -- reading was the last thing done.
  pub set_stopped_confirmed :
      (b : Bool) (w : W)
      → (set_stopped b w).0 ≡ ok tt
      → (v : W) × ((stopped_state v).0 ≡ ok b) × ((stopped_state v).1 ≡ (set_stopped b w).1)
  unfolding set_stopped
  set_stopped_confirmed b w h = after_set_sound b (u.set (if b then enable else disable) w) h
