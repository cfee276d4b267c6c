-- ===== src/Euicc/Es10b/Tests.antt =====
-- Runs of the notifications.
use mu5250_open_ui.Base.{◌≡◌, refl, [], ◌∷◌, arith, some}
use mu5250_open_ui.Base.Results.{ok}
use mu5250_open_ui.Base.Texts.{codes}
use mu5250_open_ui.Euicc.Der.{
  nil, encode, encode_children, encode_into, tag_of, from_u64, be_bytes, leading_zeros, sign_pad,
  encode_tag, encode_length,
}
use mu5250_open_ui.Euicc.Der.RoundTrip.{contents}
use mu5250_open_ui.Euicc.Es10b.{operation, operation_name, parse_pending}
use mu5250_open_ui.Euicc.Es10b.Pending.{
  Notification, Kind, installation, fields, parts, inner_parts, element, answer, IsPending,
  parse_pending-answer,
}

operation_run : operation (7 ∷ 0x40 ∷ []) ≡ some "enable"
unfolding operation operation_name
operation_run = refl

abbrev enabled : Notification
enabled = record { seq_number = 128; event = 0x40; address = codes "smdp.example.com"; more = nil }

abbrev kind : Kind
kind = installation (1 ∷ 2 ∷ []) nil nil

enabled-IsPending : IsPending kind enabled
unfolding fields parts inner_parts element answer tag_of contents encode_children encode_into
    from_u64 be_bytes leading_zeros sign_pad encode_tag encode_length
enabled-IsPending = record {
  address = omega arith;
  list = omega arith;
  element = omega arith;
  parts = omega arith;
  inner = omega arith;
  fields = omega arith;
}

parse_pending-answer_example :
    parse_pending (encode_children (answer kind enabled) [])
    ≡ ok (record {
      notification_address = codes "smdp.example.com";
      der = encode (element kind enabled);
    })
parse_pending-answer_example = parse_pending-answer kind enabled enabled-IsPending
