-- ===== src/CoapClient/Dtls.antt =====
-- What the client's DTLS sessions are opened with: atlas_coap_client_set_dtls_info of
-- src/coap/atlas_coap_client.c. libcoap is given the two texts with their lengths.
use atlas_client.Prelude.{ℕ, Option, none, some, List, take}
use atlas_client.Status.{Status, ok, invalid_dtls_identity, invalid_dtls_psk}

pub record DtlsInfo : Type 0 where
  pub dtls_identity : List ℕ
  pub dtls_key : List ℕ

-- `none` is a null pointer. Each buffer has 65 bytes, and its last byte stays zero.
unfoldable pub set_dtls_info : Option (List ℕ) → Option (List ℕ) → DtlsInfo → Status × DtlsInfo
set_dtls_info none psk info = (invalid_dtls_identity, info)
set_dtls_info (some identity) none info = (invalid_dtls_psk, info)
set_dtls_info (some identity) (some psk) info =
    (ok, record { dtls_identity = take 64 identity; dtls_key = take 64 psk })
