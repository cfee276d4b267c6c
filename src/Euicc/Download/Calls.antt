-- ===== src/Euicc/Download/Calls.antt =====
-- The calls of a download. `b64_encode` stands for the crate base64 and `sha256` for the crate sha2.
use mu5250_open_ui.Base.{ℕ, Option, List, [], ◌∷◌, length, ltb, if◌then◌else◌}
use mu5250_open_ui.Euicc.Der.{Node, prim, cons, nil, child, find, from_u64, encode}
use mu5250_open_ui.Euicc.Hex.{is_empty}
use mu5250_open_ui.Euicc.B64.{decode}
use mu5250_open_ui.Euicc.Rsp.{
  AuthenticateServerParam, PrepareDownloadParam, CancelSessionReason, reason_code,
}
use mu5250_open_ui.Euicc.Session.{
  Apdu, malformed, argument, Outcome, done, failed, ◌>>=◌, lift, ok_or, command, request,
}
use mu5250_open_ui.Euicc.Download.Requests.{authenticate_server_request, prepare_download_request}
use mu5250_open_ui.Euicc.Download.Segments.{Segment, bpp_segments}
use mu5250_open_ui.Euicc.Download.Installation.{
  LoadBppResult, default, is_success, parse_load_bpp_response,
}

abbrev pub request_buffer : ℕ
request_buffer = 255

abbrev pub cancel_request : List ℕ → CancelSessionReason → Node
cancel_request transaction_id reason =
    cons 0xbf41
      (child (prim 0x80 transaction_id) (child (prim 0x81 (from_u64 (reason_code reason))) nil))

module _ {W : Type 0} (io : Apdu W) (channel fuel : ℕ) where
  -- The loop over the segments: `result` is that of the last answer.
  unfoldable pub segment_loop : LoadBppResult → List Segment → W → Outcome W LoadBppResult
  segment_loop result [] = done result
  segment_loop result (segment ∷ segments) = do
    bytes ← lift segment
    resp ← command io channel fuel bytes
    result' ← lift (parse_load_bpp_response resp)
    let rest = segment_loop result' segments
    if is_success result' then rest else done result'

  unfoldable pub load_bound_profile_package : List ℕ → W → Outcome W LoadBppResult
  load_bound_profile_package b64_bpp = do
    plan ← lift (bpp_segments (decode b64_bpp))
    segment_loop default plan

  module _ (b64_encode : List ℕ → List ℕ) where
    unfoldable pub get_euicc_challenge : W → Outcome W (List ℕ)
    get_euicc_challenge = do
      body ← request io channel fuel (prim 0xbf2e [])
      challenge ← lift (ok_or (malformed "no euiccChallenge") (find body 0x80))
      done (b64_encode challenge.value)

    unfoldable pub get_euicc_info1 : W → Outcome W (List ℕ)
    get_euicc_info1 = do
      resp ← command io channel fuel (encode (prim 0xbf20 []))
      info ← lift (ok_or (malformed "no EUICCInfo1") (find resp 0xbf20))
      done (b64_encode info.raw)

    unfoldable pub authenticate_server :
        AuthenticateServerParam
        → Option (List ℕ)
        → Option (List ℕ)
        → W
        → Outcome W (List ℕ × List ℕ)
    authenticate_server param matching_id imei = do
      (req, transaction_id) ← lift (authenticate_server_request param matching_id imei)
      resp ← command io channel fuel req
      done (transaction_id, b64_encode resp)

    -- The transaction is an argument that the code does not use.
    unfoldable pub prepare_download :
        (List ℕ → List ℕ) → PrepareDownloadParam → List ℕ → Option (List ℕ) → W → Outcome W (List ℕ)
    prepare_download sha256 param transaction_id confirmation_code = do
      req ← lift (prepare_download_request sha256 param confirmation_code)
      resp ← command io channel fuel req
      done (b64_encode resp)

    -- The call behind the two guards.
    unfoldable pub send_cancel : List ℕ → W → Outcome W (List ℕ)
    send_cancel req = do
      resp ← command io channel fuel req
      answer ← lift (ok_or (malformed "no CancelSessionResponse") (find resp 0xbf41))
      done (b64_encode answer.raw)

    unfoldable pub cancel_session : List ℕ → CancelSessionReason → W → Outcome W (List ℕ)
    cancel_session transaction_id reason =
        let req = encode (cancel_request transaction_id reason) in
        if is_empty transaction_id
        then failed (argument "empty transaction id")
        else if ltb request_buffer (length req)
        then failed (argument "transaction id too long")
        else send_cancel req
