-- ===== src/Gate/Context/Lifecycle.antt =====
-- Framework/game_gate/EntryPtr.h, `Context`: the life of a connection's context.
use cppserver.Prelude.{◌≡◌, Bool, none, some, String, arith, if◌then◌else◌}
use cppserver.Gate.World.{Weak}
use cppserver.Gate.Context.{
  Context, ContainTy, same_ty, set_client_conn, reset_client_conn, get_client_conn,
}

-- Where setClientConn succeeds, the server's connection is read back, and the other servers'
-- stay; when it is reset the pointer is null and the name is kept.
pub client_conn_roundtrip :
    {Any : Type 0} (debug : Bool) (ty other : ContainTy) (name : String) (conn : Weak)
    (c c' : Context Any)
    → set_client_conn debug ty name conn c ≡ some c'
    → (get_client_conn other c' ≡ (
        if same_ty other ty then record { name = name; conn = conn } else get_client_conn other c))
      × (get_client_conn other (reset_client_conn ty c') ≡ (
          if same_ty other ty
          then record { name = name; conn = none }
          else get_client_conn other c))
unfolding set_client_conn reset_client_conn get_client_conn same_ty
client_conn_roundtrip debug ty other name conn c c' e = ground arith
