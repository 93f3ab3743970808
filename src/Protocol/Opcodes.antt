-- ===== src/Protocol/Opcodes.antt =====
-- crates/protocol/src/opcodes.rs: the opcodes of the messages and the codes of the error notifications.
use longship_x.Prelude.{ℕ}

abbrev pub op_c2s_bind : ℕ
op_c2s_bind = 0x0001

abbrev pub op_c2s_heartbeat : ℕ
op_c2s_heartbeat = 0x0002

abbrev pub op_c2s_join_room : ℕ
op_c2s_join_room = 0x0010

abbrev pub op_c2s_leave_room : ℕ
op_c2s_leave_room = 0x0011

abbrev pub op_c2s_room_chat : ℕ
op_c2s_room_chat = 0x0012

abbrev pub op_c2s_get_profile : ℕ
op_c2s_get_profile = 0x0013

abbrev pub op_s2c_bind_result : ℕ
op_s2c_bind_result = 0x8001

abbrev pub op_s2c_heartbeat_ack : ℕ
op_s2c_heartbeat_ack = 0x8002

abbrev pub op_s2c_profile : ℕ
op_s2c_profile = 0x8003

abbrev pub op_s2c_room_event : ℕ
op_s2c_room_event = 0x8010

abbrev pub op_s2c_error : ℕ
op_s2c_error = 0x8011

abbrev pub op_s2c_server_shutdown : ℕ
op_s2c_server_shutdown = 0x8012

abbrev pub err_protocol : ℕ
err_protocol = 1000

abbrev pub err_frame_too_large : ℕ
err_frame_too_large = 1001

abbrev pub err_rate_limited : ℕ
err_rate_limited = 1002

abbrev pub err_timeout : ℕ
err_timeout = 1003

abbrev pub err_not_authenticated : ℕ
err_not_authenticated = 1004

abbrev pub err_auth_required_first : ℕ
err_auth_required_first = 1005

abbrev pub err_already_bound : ℕ
err_already_bound = 1006

abbrev pub err_server_busy : ℕ
err_server_busy = 2001

abbrev pub err_server_shutdown : ℕ
err_server_shutdown = 2002

abbrev pub err_invalid_input : ℕ
err_invalid_input = 2003

abbrev pub err_conflict : ℕ
err_conflict = 2004

abbrev pub err_not_found : ℕ
err_not_found = 2005

abbrev pub err_forbidden : ℕ
err_forbidden = 2006
