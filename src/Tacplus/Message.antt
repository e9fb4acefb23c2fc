-- ===== src/Tacplus/Message.antt =====
-- The texts of the errors of pkg/public/tacplus, as `Error()` returns them.
use tacacs_plus_go.Base.{
  Error, List, [], arg_too_long, bad_acct_reply, bad_authen_reply, bad_author_response, bad_packet,
  codes, connection_closed, data_too_large, eof, external, if◌then◌else◌, invalid_seq_no,
  invalid_session_type, ltb, message_too_large, mux_not_supported, packet_queue_full,
  packet_too_large, port_too_large, rem_addr_too_large, server_msg_too_large, session_closed,
  session_id_in_use, session_not_found, too_many_args, too_many_packets, unexpected_eof,
  unsupported_acct_minor, unsupported_authen_minor, unsupported_author_minor, unsupported_major,
  user_too_large, ℕ, ◌%◌, ◌++◌, ◌+◌, ◌/◌, ◌∷◌,
}

-- %d of a byte.
unfoldable pub decimal : ℕ → List ℕ
decimal n =
    if ltb n 10
    then (48 + n) ∷ []
    else if ltb n 100
    then (48 + n / 10) ∷ (48 + n % 10) ∷ []
    else (48 + n / 100) ∷ (48 + n / 10 % 10) ∷ (48 + n % 10) ∷ []

unfoldable pub message : Error → List ℕ
message bad_packet = codes "bad secret or packet"
message user_too_large = codes "User field too large"
message port_too_large = codes "Port field too large"
message rem_addr_too_large = codes "RemAddr field too large"
message data_too_large = codes "Data field too large"
message server_msg_too_large = codes "ServerMsg field too large"
message message_too_large = codes "Message field too large"
message too_many_args = codes "Too many Arg's"
message arg_too_long = codes "Arg Too Long"
message session_closed = codes "session closed"
message session_id_in_use = codes "session id in use"
message connection_closed = codes "connection closed"
message invalid_seq_no = codes "invalid sequence number"
message session_not_found = codes "session not found or timed out"
message unexpected_eof = codes "unexpected EOF"
message packet_queue_full = codes "packet queue full"
message packet_too_large = codes "packet too large"
message mux_not_supported = codes "session multiplexing not supported"
message too_many_packets = codes "session aborted, too many packets"
message (unsupported_major n) = codes "unsupported major version " ++ decimal n
message (unsupported_authen_minor n) =
    codes "unsupported authentication minor version " ++ decimal n
message (unsupported_author_minor n) = codes "unsupported authorization minor version " ++ decimal n
message (unsupported_acct_minor n) = codes "unsupported accounting minor version " ++ decimal n
message (invalid_session_type n) = codes "invalid session type " ++ decimal n
message (bad_authen_reply e) = codes "Bad ServerAddr AuthenReply: " ++ message e
message (bad_author_response e) = codes "Bad ServerAddr AuthorResponse: " ++ message e
message (bad_acct_reply e) = codes "Bad ServerAddr AcctReply: " ++ message e
message eof = codes "EOF"
message (external text) = text
