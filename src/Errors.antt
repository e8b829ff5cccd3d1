-- ===== src/Errors.antt =====
-- repo/merrors/errors.go: the errors of the project with their codes, and an error value as the
-- broker passes it on. The stack that `errors.WithStack` adds is left out.
use longcom.Base.{ℕ, Text}

-- The variables of the file, without their `Err`.
pub data ErrorKind : Type 0 where
  broker_server_internal_error not_connectd conn_closed no_message_id_available : ErrorKind
  parameters_business_empty parameters_connection_empty parameters_connection_not_found : ErrorKind
  unsupport_qos conn_already_auth conn_not_auth conn_unknown_state send_buffer_full : ErrorKind
  too_many_inflight_inbound_message alias_hub_not_exist hub_has_been_closed : ErrorKind
  invalid_push_by_alias_message_params parameters_alias_empty parameters_topic_list_empty :
      ErrorKind
  trpc_rsp_is_nil new_group_manager alias_invalid api_disconnect_params unknown_conn_status :
      ErrorKind
  payload_type_not_support callback_handler_not_found login_session_invalid : ErrorKind
  anchor_not_found web_socket_token_invalid send_message_fail user_connection_get_fail : ErrorKind
  msg_send_occur_connection_is_closed conn_exceeds_limit : ErrorKind
  gnet_websocket_codec_need_more_data : ErrorKind

-- An error of the project, or one of a library.
pub data Error : Type 0 where
  known : ErrorKind → Error
  other : Text → Error

unfoldable pub code : ErrorKind → ℕ
code broker_server_internal_error = 20000
code not_connectd = 20001
code conn_closed = 20002
code no_message_id_available = 20003
code parameters_business_empty = 20004
code parameters_connection_empty = 20005
code parameters_connection_not_found = 20006
code unsupport_qos = 20007
code conn_already_auth = 20008
code conn_not_auth = 20009
code conn_unknown_state = 20010
code send_buffer_full = 20011
code too_many_inflight_inbound_message = 20012
code alias_hub_not_exist = 20013
code hub_has_been_closed = 20014
code invalid_push_by_alias_message_params = 20015
code parameters_alias_empty = 20016
code parameters_topic_list_empty = 20017
code trpc_rsp_is_nil = 20018
code new_group_manager = 20019
code alias_invalid = 20020
code api_disconnect_params = 20021
code unknown_conn_status = 20022
code payload_type_not_support = 20023
code callback_handler_not_found = 37001
code login_session_invalid = 37002
code anchor_not_found = 37003
code web_socket_token_invalid = 37004
code send_message_fail = 37005
code user_connection_get_fail = 37006
code msg_send_occur_connection_is_closed = 37007
code conn_exceeds_limit = 37008
code gnet_websocket_codec_need_more_data = 29001
