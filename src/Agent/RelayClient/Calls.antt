-- ===== src/Agent/RelayClient/Calls.antt =====
-- Calls of the client's methods in any order; a call that raises is left behind.
use termhop.Base.{String, Option, List, [], ◌∷◌}
use termhop.Json.{Items}
use termhop.Base64.{Bytes}
use termhop.Relay.Envelope.{Envelope}
use termhop.Agent.Reply.Keeps.{Keeps-change}
use termhop.Agent.RelayClient.{Platform, RelayClient, connect, close}
use termhop.Agent.RelayClient.Handshake.{
  send_pair_init, await_pair_init_ack, await_pair_challenge_and_complete, pair, send_resume_init,
  await_resume_and_complete,
}
use termhop.Agent.RelayClient.Traffic.{
  send_encrypted, send_pty_data, send_device_credential, recv_decrypted, decrypt_payload,
  send_session_close, send_session_list,
}
use termhop.Agent.RelayClient.Sequence.{Ordered, Ordered-IsQuiet, connect-Keeps, recv-Keeps}
use termhop.Agent.RelayClient.Handshake.Sequence.{
  send_pair_init-Keeps, await_pair_init_ack-Keeps, await_pair_challenge-Keeps, pair-Keeps,
  send_resume_init-Keeps, await_resume-Keeps,
}
use termhop.Agent.RelayClient.Traffic.Sequence.{
  send_encrypted-Keeps, send_device_credential-Keeps, decrypt_payload-Keeps,
  send_session_close-Keeps, send_session_list-Keeps,
}

pub data Call : Type 0 where
  connects inits_ack challenges pairs resumes receives closes : Call
  inits : Option String → Option String → Call
  resume_inits credential : String → String → Call
  encrypts : String → Bytes → Call
  prints : Bytes → Call
  decrypts : Envelope → Call
  ends : String → Call
  lists : Items → Call

module _ (p : Platform) where
  unfoldable pub perform : Call → RelayClient → RelayClient
  perform connects c = (connect p c).1
  perform inits_ack c = (await_pair_init_ack p c).1
  perform challenges c = (await_pair_challenge_and_complete p c).1
  perform pairs c = (pair p c).1
  perform resumes c = (await_resume_and_complete p c).1
  perform receives c = (recv_decrypted p c).1
  perform closes c = (close p c).1
  perform (inits secret device) c = (send_pair_init p secret device c).1
  perform (resume_inits device secret) c = (send_resume_init p device secret c).1
  perform (credential device secret) c = (send_device_credential p device secret c).1
  perform (encrypts type plaintext) c = (send_encrypted p type plaintext c).1
  perform (prints plaintext) c = (send_pty_data p plaintext c).1
  perform (decrypts envelope) c = (decrypt_payload p envelope c).1
  perform (ends reason) c = (send_session_close p reason c).1
  perform (lists sessions) c = (send_session_list p sessions c).1

  unfoldable pub perform_all : List Call → RelayClient → RelayClient
  unfolding perform
  perform_all [] c = c
  perform_all (call ∷ calls) c = perform_all calls (perform call c)

  perform-Ordered : (call : Call) (c : RelayClient) → Ordered c → Ordered (perform call c)
  unfolding perform send_pty_data recv_decrypted close
  perform-Ordered connects c h = (connect-Keeps p).at c h
  perform-Ordered inits_ack c h = (await_pair_init_ack-Keeps p).at c h
  perform-Ordered challenges c h = (await_pair_challenge-Keeps p).at c h
  perform-Ordered pairs c h = (pair-Keeps p).at c h
  perform-Ordered resumes c h = (await_resume-Keeps p).at c h
  perform-Ordered receives c h = (recv-Keeps Ordered-IsQuiet p).at c h
  perform-Ordered closes c h = (Keeps-change {P = Ordered} _ λ d k. k).at c h
  perform-Ordered (inits secret device) c h = (send_pair_init-Keeps p secret device).at c h
  perform-Ordered (resume_inits device secret) c h = (send_resume_init-Keeps p device secret).at c h
  perform-Ordered (credential device secret) c h =
      (send_device_credential-Keeps p device secret).at c h
  perform-Ordered (encrypts type plaintext) c h = (send_encrypted-Keeps p type plaintext).at c h
  perform-Ordered (prints plaintext) c h = (send_encrypted-Keeps p "pty_data" plaintext).at c h
  perform-Ordered (decrypts envelope) c h = (decrypt_payload-Keeps p envelope).at c h
  perform-Ordered (ends reason) c h = (send_session_close-Keeps p reason).at c h
  perform-Ordered (lists sessions) c h = (send_session_list-Keeps p sessions).at c h

-- Whatever methods are called, in whatever order, and whichever of them raise: if what a client has sent
-- is numbered upwards, the latest at most its counter, then so is all that it has sent afterwards.
pub perform_all-Ordered :
    (p : Platform) (calls : List Call) (c : RelayClient)
    → Ordered c
    → Ordered (perform_all p calls c)
unfolding perform_all
perform_all-Ordered p [] c h = h
perform_all-Ordered p (call ∷ calls) c h =
    perform_all-Ordered p calls (perform p call c) (perform-Ordered p call c h)
