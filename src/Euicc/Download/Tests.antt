-- ===== src/Euicc/Download/Tests.antt =====
-- Runs of a download.
use mu5250_open_ui.Base.{ℕ, ◌≡◌, refl, none, some, List, [], ◌∷◌, ◌⊎◌, true, false, arith}
use mu5250_open_ui.Base.Results.{ok}
use mu5250_open_ui.Euicc.Der.{
  find, find_first, iter, iter_loop, next, parse, length_loop, encode_into, prim, nil, child,
  encode, encode_children, tag_of,
}
use mu5250_open_ui.Euicc.Der.RoundTrip.{contents}
use mu5250_open_ui.Euicc.B64.{decode, sextets, sextet, groups}
use mu5250_open_ui.Euicc.B64.RoundTrip.{standard, symbol}
use mu5250_open_ui.Euicc.Session.{
  command, chunks, chunk_loop, send_blocks, collect, split_status, class, argument, done, failed,
}
use mu5250_open_ui.Euicc.Session.Card.{transmit, io, fresh}
use mu5250_open_ui.Euicc.Rsp.{postponed}
use mu5250_open_ui.Euicc.Download.Segments.{
  plan_from, plan_87, plan_86, plan_88, header, find_with_offset, offset_loop, Segment,
  bpp_segments,
}
use mu5250_open_ui.Euicc.Download.Installation.{default, is_success, parse_load_bpp_response}
use mu5250_open_ui.Euicc.Download.Calls.{segment_loop, load_bound_profile_package, cancel_session}
use mu5250_open_ui.Euicc.Download.Parts.{
  Parts, parts_of, with_second, last_parts, pack, IsPackage, joined,
}
use mu5250_open_ui.Euicc.Download.Plan.{bpp_segments-pack}
use mu5250_open_ui.Euicc.Download.Loading.{AllAccepted, Refused, load_outcome}

abbrev parts : Parts
parts = record {
  init = child (prim 0x82 (1 ∷ [])) nil;
  first = child (prim 0x87 (2 ∷ [])) nil;
  configure = child (prim 0x88 (3 ∷ [])) nil;
  second = none;
  elements = child (prim 0x86 (4 ∷ [])) (child (prim 0x86 (5 ∷ [])) nil);
}

parts-IsPackage : IsPackage parts
unfolding parts_of with_second last_parts pack tag_of contents encode_children
parts-IsPackage = record {
  whole = omega arith;
  parts = omega arith;
  configure = omega arith;
  elements = omega arith;
}

bpp_segments-pack_example :
    (plan : List Segment) × (bpp_segments (encode (pack parts)) ≡ ok plan)
    × (joined plan ≡ some (encode (pack parts)))
bpp_segments-pack_example = bpp_segments-pack parts parts-IsPackage

cancel_session_refused :
    cancel_session (io (λ der. [])) 1 9 (λ b. b) [] postponed fresh
    ≡ failed (argument "empty transaction id") fresh
unfolding cancel_session
cancel_session_refused = refl

-- A card that accepts every segment without a word.
abbrev silent : List ℕ → List ℕ
silent der = []

load_run :
    load_bound_profile_package (io silent) 1 3 (standard (encode (pack parts))) fresh
    ≡ done default fresh
unfolding load_bound_profile_package segment_loop parse_load_bpp_response bpp_segments plan_from
    plan_87 plan_86 plan_88 header find_with_offset offset_loop find find_first iter iter_loop next
    parse length_loop decode sextets sextet groups standard symbol encode encode_into pack parts_of
    with_second last_parts is_success command chunks chunk_loop send_blocks collect split_status
    class transmit
load_run = refl

load_outcome_example :
    (plan : List Segment) × (bpp_segments (decode (standard (encode (pack parts)))) ≡ ok plan)
    × (((is_success default ≡ true) × AllAccepted (io silent) 1 3 plan fresh fresh)
        ⊎ ((is_success default ≡ false) × Refused (io silent) 1 3 plan fresh default fresh))
load_outcome_example =
    load_outcome (io silent) 1 3 (standard (encode (pack parts))) default fresh fresh load_run
