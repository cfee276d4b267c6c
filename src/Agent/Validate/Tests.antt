-- ===== src/Agent/Validate/Tests.antt =====
-- Runs of the limits on JSON values.
use mu5250_open_ui.Base.{ℕ, suc, zero, ◌≡◌, ◌↔◌, refl, [], ◌∷◌}
use mu5250_open_ui.Base.Results.{ok, err}
use mu5250_open_ui.Agent.Validate.{
  Shape, null, array, too_deep, check_each, check_shape, check_depth, validate_ubus_input,
}
use mu5250_open_ui.Agent.Validate.Limits.{IsContainer, IsWithin, validate_ubus_input-IsWithin}

-- A number stands for that many arrays around a null.
unfoldable nested : ℕ → Shape ℕ
nested zero = null
nested (suc n) = array (n ∷ [])

eight_levels : validate_ubus_input nested 8 ≡ ok tt
unfolding validate_ubus_input check_depth check_shape check_each nested
eight_levels = refl

nine_levels : validate_ubus_input nested 9 ≡ err too_deep
unfolding validate_ubus_input check_depth check_shape check_each nested
nine_levels = refl

validate_ubus_input-IsWithin_example :
    (validate_ubus_input nested 8 ≡ ok tt) ↔ (IsContainer nested (nested 8) × IsWithin nested 9 8)
validate_ubus_input-IsWithin_example = validate_ubus_input-IsWithin nested 8
