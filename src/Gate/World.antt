-- ===== src/Gate/World.antt =====
-- What the gate's tables read of the connections: muduo's `TcpConnectionPtr` and `weak_ptr::lock`.
use cppserver.Prelude.{ℕ, Bool, Option, none, some, String, if◌then◌else◌}

pub record World : Type 0 where
  pub alive : ℕ → Bool
  pub session : ℕ → String

abbrev pub Weak : Type 0
Weak = Option ℕ

unfoldable pub lock : World → Weak → Option ℕ
lock w none = none
lock w (some c) = if w.alive c then some c else none
