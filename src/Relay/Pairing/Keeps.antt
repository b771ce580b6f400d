-- ===== src/Relay/Pairing/Keeps.antt =====
-- Calls of Redis leave the registry to the connections that run meanwhile.
use termhop.Base.{String}
use termhop.Json.{Value}
use termhop.Relay.Config.{Config}
use termhop.Relay.Registry.{SessionRegistry}
use termhop.Relay.System.{System}
use termhop.Relay.Pairing.Scripts.{
  Issued, Consumed, duplicate, issued, not_found, already_used, consumed,
}
use termhop.Relay.Pairing.{
  issue_token, raise_duplicate, consume_token, raise_unusable, delete_token, create_session_record,
  set_session_state, mark_session_established, delete_session_record,
}
use termhop.Relay.Keeps.{Keeps, Relies, keeps_rules, Keeps-redis_call, Keeps-done, Keeps-raise}

module _ {State : Type 0} {P : SessionRegistry → Type 0} (sys : System State)
    (rely : Relies sys P) where
  raise_duplicate-Keeps : (i : Issued) → Keeps P (raise_duplicate sys i)
  unfolding raise_duplicate
  raise_duplicate-Keeps issued = Keeps-done tt
  raise_duplicate-Keeps duplicate = Keeps-raise _

  pub issue_token-Keeps :
      (cfg : Config) (token : Value) (key session_id hostname : String)
      → Keeps P (issue_token sys cfg token key session_id hostname)
  unfolding issue_token
  issue_token-Keeps cfg token key session_id hostname =
      search (keeps_rules, Keeps-redis_call sys rely, raise_duplicate-Keeps)

  raise_unusable-Keeps : (token : String) (c : Consumed) → Keeps P (raise_unusable sys token c)
  unfolding raise_unusable
  raise_unusable-Keeps token not_found = Keeps-raise _
  raise_unusable-Keeps token already_used = Keeps-raise _
  raise_unusable-Keeps token (consumed fields) = Keeps-done fields

  pub consume_token-Keeps : (token : String) → Keeps P (consume_token sys token)
  unfolding consume_token
  consume_token-Keeps token = search (keeps_rules, Keeps-redis_call sys rely, raise_unusable-Keeps)

  pub delete_token-Keeps : (token : String) → Keeps P (delete_token sys token)
  unfolding delete_token
  delete_token-Keeps token = Keeps-redis_call sys rely _

  pub create_session_record-Keeps :
      (cfg : Config) (session_id : String) → Keeps P (create_session_record sys cfg session_id)
  unfolding create_session_record
  create_session_record-Keeps cfg session_id = search (keeps_rules, Keeps-redis_call sys rely)

  pub set_session_state-Keeps :
      (session_id state : String) → Keeps P (set_session_state sys session_id state)
  unfolding set_session_state
  set_session_state-Keeps session_id state = Keeps-redis_call sys rely _

  pub mark_session_established-Keeps :
      (session_id : String) → Keeps P (mark_session_established sys session_id)
  unfolding mark_session_established
  mark_session_established-Keeps session_id = search (keeps_rules, Keeps-redis_call sys rely)

  pub delete_session_record-Keeps :
      (session_id : String) → Keeps P (delete_session_record sys session_id)
  unfolding delete_session_record
  delete_session_record-Keeps session_id = Keeps-redis_call sys rely _
