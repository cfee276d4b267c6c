-- ===== src/Euicc/Info2/Tests.antt =====
-- Runs of the reader of the card's information.
use mu5250_open_ui.Base.{ℕ, ◌≡◌, refl, List, [], ◌∷◌, some}
use mu5250_open_ui.Base.Texts.{codes, decimal}
use mu5250_open_ui.Euicc.Der.{iter, iter_loop, next, parse, length_loop}
use mu5250_open_ui.Euicc.Info2.{version, set_field, parse_info2}

-- The version 2.3.1, and after it a malformed one.
abbrev body : List ℕ
body = 0x81 ∷ 0x03 ∷ 2 ∷ 3 ∷ 1 ∷ 0x81 ∷ 0x01 ∷ 9 ∷ []

profile_version_run : (parse_info2 body).profile_version ≡ some (codes "2.3.1")
unfolding parse_info2 set_field version decimal iter iter_loop next parse length_loop
profile_version_run = refl
