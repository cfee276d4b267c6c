-- ===== src/Euicc/Session/Tests.antt =====
-- Runs of a session.
use mu5250_open_ui.Base.{ℕ, ◌+◌, ◌≡◌, ◌≢◌, refl, ap, List, [], ◌∷◌, length, arith}
use mu5250_open_ui.Base.Results.{ok}
use mu5250_open_ui.Euicc.Der.{
  cons, child, nil, from_u64, be_bytes, prim, tag_of, encode, to_u64, find, iter, iter_loop, next,
  parse,
}
use mu5250_open_ui.Euicc.Session.{
  Apdu, status, done, failed, command, request, result_code, split_status, chunks, chunk_loop,
  collect, send_blocks,
}
use mu5250_open_ui.Euicc.Session.Delivery.{command-answer}
use mu5250_open_ui.Euicc.Session.Card.{World, io, view, card, fresh}

abbrev reply : List ℕ → List ℕ
reply der = 0xbf ∷ der

-- A request of two blocks.
abbrev long : List ℕ
long = be_bytes 130 5

long_some : long ≢ []
unfolding be_bytes
long_some e = absurd (omega (arith, ap length e))

command-answer_example :
    (w' : World) × (command (io reply) 1 (length (reply long) + 2) long fresh
      ≡ done (reply long) w')
command-answer_example =
    command-answer (io reply) 1 reply (view reply) (card reply) (omega arith)
      (length (reply long) + 2) long fresh long_some refl refl (omega arith)

-- Status words outside `61xx` and `9xxx` fail, and so does a response that is too short.
abbrev refusing : List ℕ → Apdu World
refusing r = record {
  open_channel = λ aid w. (ok 1, w);
  close_channel = λ c w. w;
  transmit = λ apdu w. (ok r, w);
}

refused_run :
    command (refusing (0x6a ∷ (0x82 ∷ []))) 1 5 (0xbf ∷ []) fresh ≡ failed (status 0x6a 0x82) fresh
unfolding command chunks chunk_loop send_blocks collect split_status
refused_run = refl

result_code_run :
    result_code
      (refusing (0xbf ∷ (0x31 ∷ (0x03 ∷ (0x80 ∷ (0x01 ∷ (0x05 ∷ (0x90 ∷ (0x00 ∷ [])))))))))
      1
      5
      (prim 0xbf31 [])
      fresh
    ≡ done 5 fresh
unfolding result_code request command chunks chunk_loop send_blocks collect split_status encode
    tag_of to_u64 find iter iter_loop next parse
result_code_run = refl

-- A card that answers any request with the code 5.
abbrev busy : List ℕ → List ℕ
busy der = encode (cons 0xbf31 (child (prim 0x80 (from_u64 5)) nil))
