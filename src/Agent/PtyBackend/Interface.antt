-- ===== src/Agent/PtyBackend/Interface.antt =====
-- agent/common/ptybackend.py: the interface of a terminal, and the two classes that implement it by ptyprocess, agent/linux/pty_backend.py and agent/macos/pty_backend.py.
use termhop.Base.{ℕ, Bool, Option}
use termhop.Base64.{Bytes}
use termhop.Agent.Reply.{Command}
use termhop.Agent.PtyBackend.{Proc, Backend, new_backend, using, read_proc, with_proc, ended}
use termhop.Agent.PtyBackend

-- PTYBackend
pub record PtyOps (S : Type 0) : Type 0 where
  -- PTYBackend()
  pub new : S
  pub spawn : Option Proc → Command S (Unit {0})
  pub read : Command S Bytes
  pub write : Bytes → Command S (Unit {0})
  pub resize : ℕ → ℕ → Command S (Unit {0})
  pub is_alive : Command S Bool
  pub wait : Command S ℕ
  pub close : Command S (Unit {0})

-- PtyLinuxBackend
unfoldable pub linux_backend : PtyOps Backend
linux_backend = record {
  new = new_backend;
  spawn = PtyBackend.spawn;
  read = PtyBackend.read;
  write = PtyBackend.write;
  resize = PtyBackend.resize;
  is_alive = PtyBackend.is_alive;
  wait = PtyBackend.wait;
  close = PtyBackend.close;
}

-- PtyMacosBackend
unfoldable pub macos_backend : PtyOps Backend
macos_backend = record {
  new = new_backend;
  spawn = PtyBackend.spawn;
  read = PtyBackend.read;
  write = PtyBackend.write;
  resize = PtyBackend.resize;
  is_alive = PtyBackend.is_alive;
  wait = PtyBackend.wait;
  close = PtyBackend.close;
}
