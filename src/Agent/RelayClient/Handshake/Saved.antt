-- ===== src/Agent/RelayClient/Handshake/Saved.antt =====
-- A client that announces a saved device holds the device's secret.
use termhop.Base.{◌≡◌, refl, ◌∙◌, String, Option, some, ◌⧺◌}
use termhop.Json.{Payload}
use termhop.Agent.Reply.{change, ◌>>=◌}
use termhop.Agent.Reply.Keeps.{Keeps, reply_rules}
use termhop.Agent.RelayClient.{
  Platform, RelayClient, send, recv, generate_session_id, generate_ephemeral_keypair,
}
use termhop.Agent.RelayClient.Sequence.{
  IsQuiet, recv-Keeps, generate_session_id-Keeps, generate_ephemeral_keypair-Keeps,
}
use termhop.Agent.RelayClient.Handshake.{announce_device, send_resume_init}
use termhop.Agent.RelayClient.Handshake.Own.{own_refl, send-Own}

-- The token and the secret of the client
abbrev pub Carries : String → String → RelayClient → Type 0
Carries token secret c =
    ◌≡◌ {A = Option String × Option String} (c.token, c.pairing_secret) (some token, some secret)

module _ (token secret : String) where
  Carries-IsQuiet : IsQuiet (Carries token secret)
  Carries-IsQuiet = record { moves = λ c n h. h; takes = λ c frames h. h }

  module _ (p : Platform) where
    send-Carries :
        (type : String) (s : Option String) (body : Payload)
        → Keeps (Carries token secret) (send p type s body)
    send-Carries type s body = record {
      at = λ c h.
          let own = (send-Own c p type s body).at c (own_refl c) in
          (λ i. (own.token_is i, own.secret_is i)) ∙ h;
    }

    session_id-Carries : Keeps (Carries token secret) (generate_session_id p)
    session_id-Carries = generate_session_id-Keeps Carries-IsQuiet p

    keypair-Carries : Keeps (Carries token secret) (generate_ephemeral_keypair p)
    keypair-Carries = generate_ephemeral_keypair-Keeps Carries-IsQuiet p

    recv-Carries : Keeps (Carries token secret) (recv p)
    recv-Carries = recv-Keeps Carries-IsQuiet p

    announce_device-Carries :
        (device : String) → Keeps (Carries token secret) (announce_device p device)
    unfolding announce_device
    announce_device-Carries device =
        search (reply_rules, session_id-Carries, keypair-Carries, recv-Carries, send-Carries) depth
          20

pub send_resume_init-Carries :
    (p : Platform) (device secret : String) (c : RelayClient)
    → Carries ("resume:" ⧺ device) secret (send_resume_init p device secret c).1
unfolding send_resume_init change ◌>>=◌
send_resume_init-Carries p device secret c =
    (announce_device-Carries ("resume:" ⧺ device) secret p device).at
      (record c { token = some ("resume:" ⧺ device); pairing_secret = some secret }) refl
