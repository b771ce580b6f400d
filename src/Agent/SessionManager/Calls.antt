-- ===== src/Agent/SessionManager/Calls.antt =====
-- Calls of the session manager's methods, and sequences of them.
use termhop.Base.{String, Bool, true, false, Option, List, [], ◌∷◌}
use termhop.Json.{ℤ}
use termhop.Agent.Reply.{Reply, answer, failed}
use termhop.Agent.SessionManager.{
  SessionManager, Inputs, create, rename, start, attach, detach, pause, resume, terminate, complete,
}

pub data Call : Type 0 where
  creates : String → String → Call
  renames : String → String → Call
  starts : String → Call
  attaches : String → Call
  detaches pauses resumes terminates : String → String → Call
  completes : String → Option ℤ → Call

-- Whether the method returned, and what it left.
abbrev pub outcome : {A : Type 0} → Reply A × SessionManager → Bool × SessionManager
outcome (answer _, m) = (true, m)
outcome (failed _, m) = (false, m)

unfoldable pub perform : Inputs → Call → SessionManager → Bool × SessionManager
perform io (creates label cwd) m = outcome (create io label cwd m)
perform io (renames s label) m = outcome (rename io s label m)
perform io (starts s) m = outcome (start io s m)
perform io (attaches s) m = outcome (attach io s m)
perform io (detaches s token) m = outcome (detach io s token m)
perform io (pauses s token) m = outcome (pause io s token m)
perform io (resumes s token) m = outcome (resume io s token m)
perform io (terminates s token) m = outcome (terminate io s token m)
perform io (completes s code) m = outcome (complete io s code m)

-- The calls in order, each with its inputs; a call that raises is left behind.
unfoldable pub perform_all : List (Inputs × Call) → SessionManager → SessionManager
unfolding perform
perform_all [] m = m
perform_all ((io, call) ∷ calls) m = perform_all calls (perform io call m).1
