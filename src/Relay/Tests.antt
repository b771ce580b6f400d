-- ===== src/Relay/Tests.antt =====
-- The relay run on concrete connections.
use termhop.Base64.{decoded_size}
use Prim.Native.String.{len}
use termhop.Base.{
  String, Option, ℕ, ◌-◌, ◌+◌, ◌*◌, ◌≤◌, ltb, if◌then◌else◌, ◌≡◌, refl, true, false, none, some,
  List, [], ◌∷◌, arith,
}
use termhop.Dict.{get, put}
use termhop.Json.{Value, obj, field, end, int, pos, str, truthy}
use termhop.Relay.Exec.{ok, ◌>>=◌}
use termhop.Relay.Registry.{
  agent, client, pairing, established, new_registry, get_session, get_peer, set_phase, attach,
}
use termhop.Relay.Registry.Laws.{
  IsRegistry, attach-IsRegistry, set_phase-IsRegistry, new_registry-IsRegistry,
}
use termhop.Relay.Registry.Routes.{Update, attaches, detaches, removes, sets_phase, registers, view}
use termhop.Relay.Registry.Routes.Runs.{run_routes, run_updates, run_updates-routes}
use termhop.Relay.Envelope.{Envelope, model_validate, parse_envelope}
use termhop.Relay.Redis.Memory.{empty_store, memory, memory-IsRedis}
use termhop.Relay.System.{World, System, ConnectionContext, Machine, quiet, send_to}
use termhop.Relay.Pairing.{mark_session_established}
use termhop.Relay.Router.Checks.{
  valid_base64_size, valid_session_id, valid_device_id, valid_hostname,
}
use termhop.Relay.Router.Traffic.{is_established, handle_routable}
use termhop.Relay.Router.Pair.{handle_pair_complete}
use termhop.Relay.Router.Dispatch.{dispatch}
use termhop.Relay.Router.Grounds.{Completes, is_completion}
use termhop.Relay.Router.Phases.{dispatch-establishes, dispatch-IsRegistry}
use termhop.Relay.Router.Traffic.Delivery.{Outcome, handle_routable-confined}
use termhop.Relay.Router.Resume.{handle_resume_init}
use termhop.Relay.Router.Resume.Conflict.{IsResumeInit, IsEvicted, resume_init-evicts}
use termhop.Relay.Pairing.Tokens.{
  TokenCall, issues, consumes, deletes, accepted, refused, unknown, used_up, deleted, handed_out,
  spec_calls, token_state, real_calls, real_calls-refines,
}
use termhop.Relay.RateLimit.{allowed, blocked, ip_window_script, try_acquire}
use termhop.Relay.RateLimit.Attempts.{attempts, allow_first, attempts_lem}
use termhop.Relay.RateLimit.Window.{ip_window_lem}
use termhop.Relay.RateLimit.Connections.{
  Event, count_of, opens, closes, run_events, run_live, new_limiter, run_events_lem,
}
use termhop.Relay.Envelope.Laws.{IsWellFormed, parse_envelope-accepts}
use termhop.Relay.Connection.{leaves, serve, run_connection}
use termhop.Relay.Connection.Cleanup.{IsClean, run_connection-cleans}
use termhop.Relay.System.{yield}
use termhop.Relay.Samples.{
  late_machine, late_init, test_system, test_context, paired_registry, paired_slot, agent_machine,
  completion, test_envelope,
}

test_completion :
    is_established (
      get_session
        (dispatch test_system completion (agent_machine pairing)).1.world.registry
        "sess-a")
    ≡ true
unfolding dispatch get_session get termhop.Relay.Exec.try_except handle_pair_complete
    termhop.Json.truthy valid_base64_size decoded_size ◌>>=◌ get_peer
    termhop.Relay.System.change_registry send_to mark_session_established
    termhop.Relay.System.redis_call set_phase put
test_completion = refl

test_pending : is_established (get_session (paired_registry pairing) "sess-a") ≡ false
unfolding get_session get
test_pending = refl

dispatch-establishes_example :
    (is_completion "pair_complete" ≡ true)
    × Completes (paired_registry pairing) (test_context 1 agent (some "sess-a")) completion "sess-a"
dispatch-establishes_example =
    dispatch-establishes test_system completion (agent_machine pairing) "sess-a" (λ w h. h)
      test_pending test_completion

paired-IsRegistry : IsRegistry (paired_registry pairing)
unfolding attach get put
paired-IsRegistry =
    attach-IsRegistry (attach "sess-a" agent 1 new_registry).1
      (attach-IsRegistry new_registry new_registry-IsRegistry "sess-a" agent 1) "sess-a" client 2

established-IsRegistry : IsRegistry (paired_registry established)
unfolding set_phase get put
established-IsRegistry =
    set_phase-IsRegistry (paired_registry pairing) paired-IsRegistry "sess-a" established

dispatch-IsRegistry_example :
    IsRegistry (dispatch test_system completion (agent_machine pairing)).1.world.registry
dispatch-IsRegistry_example =
    dispatch-IsRegistry test_system completion (agent_machine pairing) (λ w h. h) paired-IsRegistry

abbrev output : Envelope
output = test_envelope "pty_data" (("data", str "bHM=") ∷ [])

handle_routable-confined_example :
    Outcome
      (agent_machine established)
      output
      (handle_routable test_system output (agent_machine established)).1.world.outbox
handle_routable-confined_example =
    handle_routable-confined test_system (λ w. refl) output (agent_machine established)

abbrev token_calls : List TokenCall
token_calls =
    issues "t" "key" "sess-a" "laptop" "0"
    ∷ issues "t" "other" "sess-b" "thief" "1"
    ∷ consumes "t"
    ∷ consumes "t"
    ∷ deletes "t"
    ∷ consumes "t"
    ∷ []

real_calls-refines_example :
    real_calls memory 120 token_calls empty_store
    ≡ spec_calls token_calls (token_state memory empty_store)
real_calls-refines_example =
    real_calls-refines memory memory-IsRedis 120 (omega arith) token_calls empty_store

test_spec_calls :
    spec_calls token_calls (token_state memory empty_store)
    ≡ accepted ∷ refused ∷ handed_out "key" "sess-a" "laptop" ∷ used_up ∷ deleted ∷ unknown ∷ []
unfolding spec_calls get
test_spec_calls = refl

abbrev registry_updates : List Update
registry_updates =
    attaches "sess-a" agent 1
    ∷ attaches "sess-a" agent 2
    ∷ registers "dev-a" "sess-a"
    ∷ attaches "sess-a" client 3
    ∷ sets_phase "sess-a" established
    ∷ detaches "sess-a" agent
    ∷ removes "sess-a"
    ∷ []

run_updates-routes_example :
    IsRegistry (run_updates registry_updates new_registry)
    × (view (run_updates registry_updates new_registry)
        ≡ run_routes registry_updates (view new_registry))
run_updates-routes_example =
    run_updates-routes registry_updates new_registry new_registry-IsRegistry

open_token : memory.exists empty_store "block" ≡ false
unfolding get
open_token = refl

no_attempts : memory.counter empty_store "count" ≡ 0
unfolding get
no_attempts = refl

attempts_lem_example :
    attempts memory "count" "block" 5 120 7 empty_store
    ≡ allow_first (5 - memory.counter empty_store "count") 7
attempts_lem_example =
    attempts_lem memory memory-IsRedis "count" "block" 5 120 (omega arith) refl 7 empty_store
      open_token (omega (arith, no_attempts))

fresh_member : memory.zscore empty_store "ip" "1000000:u" ≡ none
unfolding get
fresh_member = refl

ip_window_lem_example :
    ((ip_window_script memory "ip" 1000000 300 20 "1000000:u" empty_store).0 ≡ (
      if ltb (memory.zcount empty_store "ip" (1000000 - 300 * 1000)) 20 then allowed else blocked))
    × ((low : ℕ)
        → 1000000 - 300 * 1000 ≤ low
        → memory.zcount
            (ip_window_script memory "ip" 1000000 300 20 "1000000:u" empty_store).1
            "ip"
            low
          ≡ (if ltb low 1000000
              then memory.zcount empty_store "ip" low + 1
              else memory.zcount empty_store "ip" low))
ip_window_lem_example =
    ip_window_lem memory memory-IsRedis "ip" "1000000:u" 1000000 300 20 empty_store fresh_member

abbrev connection_events : List Event
connection_events =
    opens "a" ∷ opens "b" ∷ opens "a" ∷ opens "a" ∷ closes "a" ∷ closes "b" ∷ opens "a" ∷ []

run_events_lem_example :
    let l = run_events 2 connection_events new_limiter in
    (count_of l "a" ≡ run_live 2 connection_events (λ j. 0) "a")
    × ((try_acquire l "a" 2).0 ≡ ltb (count_of l "a") 2)
    × (count_of l "a" ≤ 2)
run_events_lem_example = run_events_lem 2 connection_events "a"

late_init-IsResumeInit : IsResumeInit late_init "sess-a"
unfolding get valid_session_id valid_device_id valid_base64_size decoded_size valid_hostname
late_init-IsResumeInit = record {
  session_named = refl;
  session_valid = refl;
  device_valid = refl;
  key_valid = refl;
  hostname_valid = refl;
}

held_session : get_session (paired_registry established) "sess-a" ≡ some (paired_slot established)
unfolding get_session get
held_session = refl

resume_init-evicts_example :
    IsEvicted "sess-a" late_machine (handle_resume_init test_system late_init late_machine).1
resume_init-evicts_example =
    resume_init-evicts test_system (λ w. refl) (λ w. refl) late_machine late_init "sess-a"
      (paired_slot established) 1 refl refl late_init-IsResumeInit held_session refl refl

quiet_connection :
    (serve test_system
      (leaves 5 ∷ [])
      (yield test_system (agent_machine established))).after.ctx.session_id
    ≡ some "sess-a"
unfolding serve get_session get
quiet_connection = refl

run_connection-cleans_example :
    IsClean "sess-a"
      (run_connection test_system (leaves 5 ∷ []) (agent_machine established)).world.registry
run_connection-cleans_example =
    run_connection-cleans test_system (λ w v. v) "sess-a" (λ w v. v) (leaves 5 ∷ [])
      (agent_machine established) established-IsRegistry quiet_connection

-- A decoder that gives one document for every text.
abbrev one_document : String → Option Value
one_document raw = some (
    obj (
      field "v" (int (pos 2)) (
        field "type" (str "pty_data") (
          field "session_id" (str "sess-a")
            (field "seq" (int (pos 1)) (field "ts" (int (pos 0)) end))))))

test_parse : parse_envelope one_document "{}" 4096 2 ≡ ok (test_envelope "pty_data" [])
unfolding parse_envelope model_validate get put
test_parse = refl

parse_envelope-accepts_example :
    (len "{}" ≤ 4096)
    × ((test_envelope "pty_data" []).v ≡ 2)
    × IsWellFormed (test_envelope "pty_data" [])
parse_envelope-accepts_example = parse_envelope-accepts one_document "{}" 4096 2 test_parse
