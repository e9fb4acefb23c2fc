-- ===== src/Tacplus/Tests/Client.antt =====
-- A prompt of the server answered by the client of pkg/public/tacplus/client.go.
use tacacs_plus_go.Base.{
  All, IsByte, [], arith, codes, err, false, none, ok, refl, some, ◌++◌, ◌∷◌, ◌≡◌,
}
use tacacs_plus_go.Tacplus.Client.{ClientSession, send}
use tacacs_plus_go.Tacplus.Client.Prompted.{read_continue-send}
use tacacs_plus_go.Tacplus.Tests.{
  all_bytes→All, client_state, config, packet_0, server_state, toy_md5, toy_md5-IsDigest,
}
use tacacs_plus_go.Tacplus.Wire.{append_uint16}
use tacacs_plus_go.Tacplus.Crypt.{Raw}
use tacacs_plus_go.Tacplus.Session.{outgoing, packet, read_packet}
use tacacs_plus_go.Tacplus.Session.Exchange.{numbered}
use tacacs_plus_go.Tacplus.Server.{ServerSession, read_continue, ret}
use tacacs_plus_go.Tacplus.Packet.AuthenContinue
use tacacs_plus_go.Tacplus.Packet.AuthenContinue.{AuthenContinue}

abbrev answer : AuthenContinue
answer = record { abort = false; message = codes "alice" }

-- The prompt that the client has read, and its session.
abbrev prompt : Raw
prompt = record packet_0 { typ = 1; seq_no = 2; body = [] }

abbrev prompted : ClientSession
prompted = record {
  state = record client_state { session = record { id = 7; seq = 1; done = false; err = none } };
  p = some prompt;
}

-- The server's session behind the prompt, with the answer in its queue.
abbrev prompting : ServerSession
prompting = record {
  state = record server_state {
    session = record { id = 7; seq = 2; done = false; err = none };
    incoming =
        packet (outgoing toy_md5 config (record prompt { body = AuthenContinue.body answer })) ∷ [];
  };
  p = none;
}

answer-IsBytes : All IsByte (AuthenContinue.body answer)
unfolding append_uint16
answer-IsBytes = all_bytes→All (AuthenContinue.body answer) refl

read_continue-send_example :
    (send toy_md5 answer prompted ≡ (
      none,
      record prompted {
        state = record (prompted.state) {
          session = record (prompted.state.session) { seq = 3 };
          outcomes = [];
          sent =
              prompted.state.sent
              ++ (outgoing toy_md5 config (record prompt { body = AuthenContinue.body answer })
                  ∷ []);
        };
      },
    ))
    × (read_continue toy_md5 (read_packet toy_md5 prompting.state) prompting tt
        ≡ ret
            (ok answer)
            (record {
              state = record (prompting.state) { incoming = [] };
              p = some (numbered (record prompt { body = AuthenContinue.body answer }));
            })
            tt)
read_continue-send_example =
    read_continue-send toy_md5 toy_md5-IsDigest (codes "alice") prompted prompting tt prompt [] []
      refl refl refl refl refl (omega arith) (omega arith) answer-IsBytes refl
