-- ===== src/Euicc/Es9p/Calls.antt =====
-- euicc/src/es9p.rs: the five calls of the server.
use mu5250_open_ui.Base.{ℕ, some, String, List, [], ◌∷◌}
use mu5250_open_ui.Base.Results.{Result, ok, err, and_then}
use mu5250_open_ui.Base.Texts.{codes}
use mu5250_open_ui.Euicc.Es9p.Exchange.{Http, exchange, exchange_json}
use mu5250_open_ui.Euicc.Es9p.Status.{Es9pStatus, text, base64_text}
use mu5250_open_ui.Euicc.Rsp.{AuthenticateServerParam, PrepareDownloadParam}

abbrev pub path_initiate_authentication : String
path_initiate_authentication = "/gsma/rsp2/es9plus/initiateAuthentication"

abbrev pub path_authenticate_client : String
path_authenticate_client = "/gsma/rsp2/es9plus/authenticateClient"

abbrev pub path_get_bound_profile_package : String
path_get_bound_profile_package = "/gsma/rsp2/es9plus/getBoundProfilePackage"

abbrev pub path_cancel_session : String
path_cancel_session = "/gsma/rsp2/es9plus/cancelSession"

abbrev pub path_handle_notification : String
path_handle_notification = "/gsma/rsp2/es9plus/handleNotification"

-- `.map(drop)`
abbrev pub dropped : Result Es9pStatus (List ℕ) → Result Es9pStatus (Unit {0})
dropped (ok body) = ok tt
dropped (err e) = err e

module _ {W : Type 0} (http : Http W) (server_address : List ℕ) where
  unfoldable pub initiate_authentication :
      List ℕ → List ℕ → W → Result Es9pStatus (List ℕ × AuthenticateServerParam) × W
  unfolding exchange_json text base64_text
  initiate_authentication b64_euicc_challenge b64_euicc_info1 w =
      let (r, w') =
        exchange_json http server_address path_initiate_authentication
          ((codes "smdpAddress", some server_address)
            ∷ ((codes "euiccChallenge", some b64_euicc_challenge)
                ∷ ((codes "euiccInfo1", some b64_euicc_info1) ∷ [])))
          ("transactionId"
            ∷ ("serverSigned1"
                ∷ ("serverSignature1" ∷ ("euiccCiPKIdToBeUsed" ∷ ("serverCertificate" ∷ [])))))
          w in
      (
        and_then r (λ v. ok (
          text v.0,
          record {
            b64_server_signed1 = base64_text v.1.0;
            b64_server_signature1 = base64_text v.1.1.0;
            b64_euicc_ci_pkid_to_be_used = base64_text v.1.1.1.0;
            b64_server_certificate = base64_text v.1.1.1.1.0;
          },
        )),
        w',
      )

  unfoldable pub authenticate_client :
      List ℕ → List ℕ → W → Result Es9pStatus PrepareDownloadParam × W
  unfolding exchange_json base64_text
  authenticate_client transaction_id b64_authenticate_server_response w =
      let (r, w') =
        exchange_json http server_address path_authenticate_client
          ((codes "transactionId", some transaction_id)
            ∷ ((codes "authenticateServerResponse", some b64_authenticate_server_response) ∷ []))
          ("profileMetadata" ∷ ("smdpSigned2" ∷ ("smdpSignature2" ∷ ("smdpCertificate" ∷ [])))) w in
      (
        and_then r (λ v. ok (record {
          b64_profile_metadata = base64_text v.0;
          b64_smdp_signed2 = base64_text v.1.0;
          b64_smdp_signature2 = base64_text v.1.1.0;
          b64_smdp_certificate = base64_text v.1.1.1.0;
        })),
        w',
      )

  unfoldable pub get_bound_profile_package : List ℕ → List ℕ → W → Result Es9pStatus (List ℕ) × W
  unfolding exchange_json base64_text
  get_bound_profile_package transaction_id b64_prepare_download_response w =
      let (r, w') =
        exchange_json http server_address path_get_bound_profile_package
          ((codes "transactionId", some transaction_id)
            ∷ ((codes "prepareDownloadResponse", some b64_prepare_download_response) ∷ []))
          ("boundProfilePackage" ∷ []) w in
      (and_then r (λ v. ok (base64_text v.0)), w')

  unfoldable pub cancel_session : List ℕ → List ℕ → W → Result Es9pStatus (Unit {0}) × W
  unfolding exchange
  cancel_session transaction_id b64_cancel_session_response w =
      let (r, w') =
        exchange http server_address path_cancel_session
          ((codes "transactionId", some transaction_id)
            ∷ ((codes "cancelSessionResponse", some b64_cancel_session_response) ∷ []))
          w in
      (dropped r, w')

  unfoldable pub handle_notification : List ℕ → W → Result Es9pStatus (Unit {0}) × W
  unfolding exchange
  handle_notification b64_pending_notification w =
      let (r, w') =
        exchange http server_address path_handle_notification
          ((codes "pendingNotification", some b64_pending_notification) ∷ []) w in
      (dropped r, w')
