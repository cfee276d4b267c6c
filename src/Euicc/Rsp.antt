-- ===== src/Euicc/Rsp.antt =====
-- euicc/src/rsp.rs: what the operator's server and the card pass to each other, as base64 texts.
use mu5250_open_ui.Base.{ℕ, List}

pub record AuthenticateServerParam : Type 0 where
  pub b64_server_signed1 : List ℕ
  pub b64_server_signature1 : List ℕ
  pub b64_euicc_ci_pkid_to_be_used : List ℕ
  pub b64_server_certificate : List ℕ

pub record PrepareDownloadParam : Type 0 where
  pub b64_profile_metadata : List ℕ
  pub b64_smdp_signed2 : List ℕ
  pub b64_smdp_signature2 : List ℕ
  pub b64_smdp_certificate : List ℕ

pub data CancelSessionReason : Type 0 where
  end_user_rejection postponed timeout ppr_not_allowed metadata_mismatch : CancelSessionReason
  load_bpp_execution_error undefined : CancelSessionReason

-- `reason as u64`
unfoldable pub reason_code : CancelSessionReason → ℕ
reason_code end_user_rejection = 0
reason_code postponed = 1
reason_code timeout = 2
reason_code ppr_not_allowed = 3
reason_code metadata_mismatch = 4
reason_code load_bpp_execution_error = 5
reason_code undefined = 127
