-- ===== src/Frame/Constants.antt =====
-- The frame types, flags, capabilities, limits and error codes of src/aftp/frame.rs.
use agentic_file_transfer.Base.{ℕ}

abbrev pub frame_hello : ℕ
frame_hello = 0x01

abbrev pub frame_hello_ack : ℕ
frame_hello_ack = 0x02

abbrev pub frame_get : ℕ
frame_get = 0x03

abbrev pub frame_head : ℕ
frame_head = 0x04

abbrev pub frame_head_resp : ℕ
frame_head_resp = 0x05

abbrev pub frame_put : ℕ
frame_put = 0x06

abbrev pub frame_put_ack : ℕ
frame_put_ack = 0x07

abbrev pub frame_list : ℕ
frame_list = 0x08

abbrev pub frame_list_resp : ℕ
frame_list_resp = 0x09

abbrev pub frame_data : ℕ
frame_data = 0x0A

abbrev pub frame_data_end : ℕ
frame_data_end = 0x0B

abbrev pub frame_error : ℕ
frame_error = 0x0C

abbrev pub frame_ping : ℕ
frame_ping = 0x0D

abbrev pub frame_pong : ℕ
frame_pong = 0x0E

abbrev pub frame_auth_challenge : ℕ
frame_auth_challenge = 0x0F

abbrev pub frame_auth_response : ℕ
frame_auth_response = 0x10

abbrev pub frame_stream_open : ℕ
frame_stream_open = 0x11

abbrev pub frame_stream_close : ℕ
frame_stream_close = 0x12

abbrev pub frame_stream_data : ℕ
frame_stream_data = 0x13

abbrev pub frame_resume : ℕ
frame_resume = 0x14

abbrev pub frame_resume_ack : ℕ
frame_resume_ack = 0x15

abbrev pub frame_fec_offer : ℕ
frame_fec_offer = 0x16

abbrev pub frame_fec_accept : ℕ
frame_fec_accept = 0x17

abbrev pub frame_fec_needmore : ℕ
frame_fec_needmore = 0x18

abbrev pub frame_fec_block_ok : ℕ
frame_fec_block_ok = 0x19

abbrev pub frame_fec_tree : ℕ
frame_fec_tree = 0x1A

abbrev pub flag_compressed : ℕ
flag_compressed = 0x01

abbrev pub flag_crc32 : ℕ
flag_crc32 = 0x02

abbrev pub cap_compression : ℕ
cap_compression = 0x01

abbrev pub cap_checksum : ℕ
cap_checksum = 0x02

abbrev pub cap_auth_challenge : ℕ
cap_auth_challenge = 0x04

abbrev pub cap_multiplex : ℕ
cap_multiplex = 0x08

abbrev pub cap_session_resume : ℕ
cap_session_resume = 0x10

abbrev pub cap_crc32_frames : ℕ
cap_crc32_frames = 0x20

abbrev pub cap_fec : ℕ
cap_fec = 0x40

abbrev pub cap_fec_quic : ℕ
cap_fec_quic = 0x80

abbrev pub default_port : ℕ
default_port = 2600

abbrev pub default_max_frame : ℕ
default_max_frame = 1_048_576

abbrev pub initial_max_payload : ℕ
initial_max_payload = 65_536

abbrev pub checksum_none : ℕ
checksum_none = 0

abbrev pub checksum_sha256 : ℕ
checksum_sha256 = 1

abbrev pub checksum_sha512 : ℕ
checksum_sha512 = 2

abbrev pub checksum_crc32 : ℕ
checksum_crc32 = 3

abbrev pub err_not_found : ℕ
err_not_found = 1

abbrev pub err_permission_denied : ℕ
err_permission_denied = 2

abbrev pub err_invalid_request : ℕ
err_invalid_request = 3

abbrev pub err_auth_failed : ℕ
err_auth_failed = 4

abbrev pub err_internal : ℕ
err_internal = 5

abbrev pub err_io : ℕ
err_io = 6

abbrev pub err_session_expired : ℕ
err_session_expired = 7
