-- ===== src/Helper/Download/Parties.antt =====
-- esim-helper/src/download.rs: the card and the server of a download, over the traits Apdu and Http.
use mu5250_open_ui.Base.{ℕ, List}
use mu5250_open_ui.Euicc.Download.Calls
use mu5250_open_ui.Euicc.Es9p.Calls as Es9p
use mu5250_open_ui.Euicc.Es9p.Exchange.{Http}
use mu5250_open_ui.Euicc.Session.{Apdu}
use mu5250_open_ui.Helper.Download.Interface.{Card, Server}

-- `b64_encode` and `sha256` stand for the crates base64 and sha2.
unfoldable pub euicc_card :
    {W : Type 0} → Apdu W → ℕ → ℕ → (List ℕ → List ℕ) → (List ℕ → List ℕ) → Card W
euicc_card io channel fuel b64_encode sha256 = record {
  get_euicc_challenge = Calls.get_euicc_challenge io channel fuel b64_encode;
  get_euicc_info1 = Calls.get_euicc_info1 io channel fuel b64_encode;
  authenticate_server = Calls.authenticate_server io channel fuel b64_encode;
  prepare_download = Calls.prepare_download io channel fuel b64_encode sha256;
  load_bound_profile_package = Calls.load_bound_profile_package io channel fuel;
  cancel_session = Calls.cancel_session io channel fuel b64_encode;
}

-- `set_timeout` is that of the transport.
unfoldable pub es9p_server : {W : Type 0} → Http W → (ℕ → W → W) → Server W
es9p_server http set_timeout = record {
  set_timeout = set_timeout;
  initiate_authentication = Es9p.initiate_authentication http;
  authenticate_client = Es9p.authenticate_client http;
  get_bound_profile_package = Es9p.get_bound_profile_package http;
  cancel_session = Es9p.cancel_session http;
}
