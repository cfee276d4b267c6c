-- ===== src/Helper/Download/ActivationCode/Tests.antt =====
-- Witnesses and tests of the activation codes.
use mu5250_open_ui.Base.{◌≡◌, ◌↔◌, refl, true, false}
use mu5250_open_ui.Base.Results.{ok, err}
use mu5250_open_ui.Base.Texts.{codes}
use mu5250_open_ui.Helper.Download.ActivationCode.Accepted.{IsCode, parse_activation_code-accepts}
use mu5250_open_ui.Helper.Download.ActivationCode.{
  no_prefix, wrong_fields, invalid_address, parse_activation_code, valid_confirmation_code,
}

plain :
    parse_activation_code (codes "  LPA:1$rsp.example.com$M-1 ")
    ≡ ok (record {
      smdp = codes "rsp.example.com";
      matching_id = codes "M-1";
      confirmation_required = false;
    })
unfolding parse_activation_code
plain = refl

with_flag :
    parse_activation_code (codes "lpa:1$rsp.example.com$M$1.3.6$1")
    ≡ ok (record {
      smdp = codes "rsp.example.com";
      matching_id = codes "M";
      confirmation_required = true;
    })
unfolding parse_activation_code
with_flag = refl

wrong_version : parse_activation_code (codes "LPA:2$x.example$y") ≡ err no_prefix
unfolding parse_activation_code
wrong_version = refl

path : parse_activation_code (codes "LPA:1$evil.example/path$y") ≡ err invalid_address
unfolding parse_activation_code
path = refl

short : parse_activation_code (codes "LPA:1$x.example") ≡ err wrong_fields
unfolding parse_activation_code
short = refl

confirmation : valid_confirmation_code (codes "1234") ≡ true
unfolding valid_confirmation_code
confirmation = refl

parse_activation_code-accepts_example :
    (parse_activation_code (codes "LPA:1$a.b$M")
      ≡ ok (record { smdp = codes "a.b"; matching_id = codes "M"; confirmation_required = false }))
    ↔ IsCode
        (codes "LPA:1$a.b$M")
        (record { smdp = codes "a.b"; matching_id = codes "M"; confirmation_required = false })
parse_activation_code-accepts_example =
    parse_activation_code-accepts (codes "LPA:1$a.b$M")
      (record { smdp = codes "a.b"; matching_id = codes "M"; confirmation_required = false })
