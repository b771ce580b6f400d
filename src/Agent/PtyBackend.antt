-- ===== src/Agent/PtyBackend.antt =====
-- agent/linux/pty_backend.py and agent/macos/pty_backend.py, which implement agent/common/ptybackend.py
-- by the same methods. The child process of `ptyprocess` is a `Proc`: what it will print, chunk by
-- chunk, and what it was given, the newest first. Writes and resizes raise where its terminal is gone.
pub mod Open
pub mod Sizes
pub mod Alive
pub mod Interface
use termhop.Base.{ℕ, Bool, true, false, Option, none, some, List, [], ◌∷◌, if◌then◌else◌}
use termhop.Base64.{Bytes}
use termhop.Agent.Reply.{Reply, answer, failed, os_error, eof_error, assertion_error, Command}

pub record Proc : Type 0 where
  pub output : List Bytes
  pub written : List Bytes
  pub sizes : List (ℕ × ℕ)
  pub is_open : Bool
  pub running : Bool
  pub exit_code : ℕ

-- self._proc
pub record Backend : Type 0 where
  pub proc : Option Proc

abbrev pub new_backend : Backend
new_backend = record { proc = none }

abbrev with_proc : Proc → Backend
with_proc proc = record { proc = some proc }

-- assert self._proc is not None
using : {A : Type 0} → (Proc → Reply A × Proc) → Option Proc → Reply A × Backend
using f none = (failed assertion_error, record { proc = none })
using f (some proc) = let r = f proc in (r.0, with_proc r.1)

-- ptyprocess.PtyProcess.spawn(command, cwd=…, env=…) gives the child, or raises
unfoldable pub spawn : Option Proc → Command Backend (Unit {0})
spawn none b = (failed os_error, b)
spawn (some child) b = (answer tt, with_proc child)

read_proc : List Bytes → Proc → Reply Bytes × Proc
read_proc [] proc = (failed eof_error, proc)
read_proc (chunk ∷ chunks) proc = (answer chunk, record proc { output = chunks })

unfoldable pub read : Command Backend Bytes
unfolding using read_proc
read b = using (λ proc. read_proc proc.output proc) b.proc

unfoldable pub write : Bytes → Command Backend (Unit {0})
unfolding using
write text b =
    using
      (λ proc.
        if proc.is_open
        then (answer tt, record proc { written = text ∷ proc.written })
        else (failed os_error, proc))
      b.proc

-- setwinsize(rows, cols)
unfoldable pub resize : ℕ → ℕ → Command Backend (Unit {0})
unfolding using
resize rows cols b =
    using
      (λ proc.
        if proc.is_open
        then (answer tt, record proc { sizes = (rows, cols) ∷ proc.sizes })
        else (failed os_error, proc))
      b.proc

unfoldable pub is_alive : Command Backend Bool
unfolding using
is_alive b = using (λ proc. (answer proc.running, proc)) b.proc

unfoldable pub wait : Command Backend ℕ
unfolding using
wait b = using (λ proc. (answer proc.exit_code, record proc { running = false })) b.proc

-- terminate(force=True), of a child that is alive
ended : Option Proc → Option Proc
ended none = none
ended (some proc) = if proc.running then some (record proc { running = false }) else some proc

unfoldable pub close : Command Backend (Unit {0})
unfolding ended
close b = (answer tt, record { proc = ended b.proc })
