-- ===== src/Status.antt =====
-- The codes that the parts return: src/utils/atlas_status.h, src/coap/atlas_coap_response.h and
-- src/coap/atlas_coap_method.h.

-- atlas_status_t, in the header's order.
pub data Status : Type 0 where
  ok general_err invalid_hostname invalid_port coap_srv_dtls_not_supported : Status
  coap_invalid_uri invalid_callback invalid_dtls_identity invalid_dtls_psk : Status
  identity_file_error psk_file_error invalid_input corrupted_command socket_error : Status
  corrupted_command_execution_payload deferred_command_execution : Status

-- atlas_coap_response_t, in the header's order.
pub data Response : Type 0 where
  resp_ok not_found not_acceptable_here timeout reset unknown : Response

-- atlas_coap_method_t, less its count.
pub data Method : Type 0 where
  get post put delete : Method
