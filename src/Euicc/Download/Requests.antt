-- ===== src/Euicc/Download/Requests.antt =====
-- The requests that carry what the operator's server signed. `sha256` stands for the crate sha2; texts are
-- lists of bytes.
use mu5250_open_ui.Base.{
  ℕ, ◌+◌, ◌-◌, ◌/◌, Option, none, some, String, List, [], ◌∷◌, ◌++◌, length, take, min, ltb, ◌==◌,
  if◌then◌else◌,
}
use mu5250_open_ui.Base.Results.{Result, ok, and_then}
use mu5250_open_ui.Euicc.Der.{Tlv, Nodes, prim, cons, nil, child, find, to_u64, encode}
use mu5250_open_ui.Euicc.Hex.{iccid_to_bcd, repeat, is_empty}
use mu5250_open_ui.Euicc.B64.{decode}
use mu5250_open_ui.Euicc.Rsp.{AuthenticateServerParam, PrepareDownloadParam}
use mu5250_open_ui.Euicc.Session.{Error, argument, ok_or}

abbrev pub default_tac : List ℕ
default_tac = 0x35 ∷ 0x29 ∷ 0x06 ∷ 0x11 ∷ []

abbrev pub max_imei_bytes : ℕ
max_imei_bytes = 8

-- The text before the first NUL.
unfoldable pub c_str : List ℕ → List ℕ
c_str [] = []
c_str (c ∷ cs) = let rest = c_str cs in if c == 0 then [] else c ∷ rest

unfoldable pub imei_bcd : List ℕ → Option (List ℕ)
imei_bcd imei =
    let bytes = (length imei + 1) / 2 in
    if ltb max_imei_bytes bytes then none else iccid_to_bcd imei bytes

-- The first four bytes, filled with zeros.
unfoldable pub tac_of : List ℕ → List ℕ
tac_of bcd = take 4 bcd ++ repeat (4 - min (length bcd) 4) 0

-- The match on the IMEI: `none` where it cannot be converted.
unfoldable pub device_info : Option (List ℕ) → Result Error Nodes
unfolding c_str imei_bcd tac_of
device_info none = ok (child (prim 0x80 default_tac) (child (prim 0xa1 []) nil))
device_info (some imei) =
    and_then (ok_or (argument "IMEI") (imei_bcd (c_str imei)))
      λ bcd. ok (child (prim 0x80 (tac_of bcd)) (child (prim 0xa1 []) (child (prim 0x82 bcd) nil)))

abbrev pub ctx_params : Option (List ℕ) → Nodes → Nodes
ctx_params none info = child (cons 0xa1 info) nil
ctx_params (some matching_id) info =
    child (prim 0x80 (c_str matching_id)) (child (cons 0xa1 info) nil)

-- `der::find(..).ok_or(Error::Argument(..))`
abbrev pub required : String → List ℕ → ℕ → Result Error Tlv
required missing buf tag = ok_or (argument missing) (find buf tag)

-- The request, and the transaction that the server signed.
unfoldable pub authenticate_server_request :
    AuthenticateServerParam → Option (List ℕ) → Option (List ℕ) → Result Error (List ℕ × List ℕ)
authenticate_server_request param matching_id imei =
    and_then (required "no serverSigned1" (decode param.b64_server_signed1) 0x30) λ signed1.
      and_then (required "no transactionId in serverSigned1" signed1.value 0x80) λ transaction_id.
        and_then (required "no serverSignature1" (decode param.b64_server_signature1) 0x5f37)
          λ signature1.
            and_then
              (required "no euiccCiPKIdToBeUsed" (decode param.b64_euicc_ci_pkid_to_be_used) 0x04)
              λ ci_pkid.
                and_then
                  (required "no serverCertificate" (decode param.b64_server_certificate) 0x30)
                  λ certificate. and_then (device_info imei) λ info. ok (
                    encode (
                        cons 0xbf38 (
                          child (prim 0x30 signed1.value) (
                            child (prim 0x5f37 signature1.value) (
                              child (prim 0x04 ci_pkid.value) (
                                child (prim 0x30 certificate.value)
                                  (child (cons 0xa0 (ctx_params matching_id info)) nil)))))),
                    transaction_id.value,
                  )

-- `confirmation_code.map(c_str).filter(|code| !code.is_empty())`
unfoldable pub usable_code : Option (List ℕ) → Option (List ℕ)
unfolding c_str
usable_code none = none
usable_code (some text) = if is_empty (c_str text) then none else some (c_str text)

-- The children of the request from the certificate on, behind the hash where a code is required.
unfoldable pub confirmed_children :
    (List ℕ → List ℕ) → Option (List ℕ) → Tlv → Tlv → Tlv → Result Error Nodes
unfolding usable_code
confirmed_children sha256 confirmation_code transaction_id cc_required certificate =
    let certified = child (prim 0x30 certificate.value) nil in
    if to_u64 cc_required.value == 0
    then ok certified
    else and_then (ok_or (argument "confirmation code required") (usable_code confirmation_code))
        (λ code. ok (child (prim 0x04 (sha256 (sha256 code ++ transaction_id.value))) certified))

unfoldable pub prepare_download_request :
    (List ℕ → List ℕ) → PrepareDownloadParam → Option (List ℕ) → Result Error (List ℕ)
prepare_download_request sha256 param confirmation_code =
    and_then (required "no smdpSigned2" (decode param.b64_smdp_signed2) 0x30) λ signed2.
      and_then (required "no smdpSignature2" (decode param.b64_smdp_signature2) 0x5f37)
        λ signature2.
          and_then (required "no smdpCertificate" (decode param.b64_smdp_certificate) 0x30)
            λ certificate.
              and_then (required "no transactionId in smdpSigned2" signed2.value 0x80)
                λ transaction_id.
                  and_then (required "no ccRequiredFlag in smdpSigned2" signed2.value 0x01)
                    λ cc_required.
                      and_then
                        (confirmed_children sha256 confirmation_code transaction_id cc_required
                          certificate)
                        λ more. ok (
                          encode (
                            cons 0xbf21 (
                              child (prim 0x30 signed2.value)
                                (child (prim 0x5f37 signature2.value) more))))
