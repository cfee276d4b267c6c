-- ===== src/Helper/Address/Tests.antt =====
-- Witnesses and tests of the server addresses.
use mu5250_open_ui.Base.{◌≡◌, refl, true, false}
use mu5250_open_ui.Base.Texts.{codes}
use mu5250_open_ui.Helper.Address.{valid_address}
use mu5250_open_ui.Helper.Address.Server.{IsServer, valid_address-IsServer}

with_port : valid_address (codes "smdp.example.com:8443") ≡ true
unfolding valid_address
with_port = refl

port_0 : valid_address (codes "a.b:0") ≡ false
unfolding valid_address
port_0 = refl

port_sign : valid_address (codes "a.b:+443") ≡ true
unfolding valid_address
port_sign = refl

ip_literal : valid_address (codes "10.0.0.1") ≡ false
unfolding valid_address
ip_literal = refl

valid_address-IsServer_example : IsServer (codes "smdp.example.com:8443")
valid_address-IsServer_example = valid_address-IsServer (codes "smdp.example.com:8443") with_port
