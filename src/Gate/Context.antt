-- ===== src/Gate/Context.antt =====
-- Framework/game_gate/EntryPtr.h, `Entry` and `Context`: what the gate keeps of one connection. The
-- content of `boost::any` is a type parameter. A constructor's fields that the source leaves
-- default-constructed are null.
pub mod Lifecycle
use cppserver.Prelude.{
  ℕ, Bool, true, false, not, Option, none, some, List, [], ◌∷◌, String, assert, ◌>>=◌, ◌>>◌,
  is_some, ◌||◌, if◌then◌else◌,
}
use cppserver.Prelude.Int.{ℤ, pos}
use cppserver.Prelude.Maps.{is_empty}
use cppserver.Gate.World.{Weak}

-- `Entry::TypeE`.
pub data EntryTy : Type 0 where
  http tcp : EntryTy

pub record Entry (Any : Type 0) : Type 0 where
  pub ty : EntryTy
  pub locked : Bool
  pub weak_conn : Weak
  pub context : Option Any
  pub peer_name : String
  pub local_name : String

-- The two constructors: without and with a context.
unfoldable pub init_entry :
    {Any : Type 0} → EntryTy → Weak → Option Any → String → String → Entry Any
init_entry ty weak_conn context peer_name local_name = record {
  ty = ty;
  locked = false;
  weak_conn = weak_conn;
  context = context;
  peer_name = peer_name;
  local_name = local_name;
}

unfoldable pub set_locked : {Any : Type 0} → Bool → Entry Any → Entry Any
set_locked locked e = record e { locked = locked }

-- `containTy`: the servers that a connection is joined to.
pub data ContainTy : Type 0 where
  gate hall game : ContainTy

unfoldable pub same_ty : ContainTy → ContainTy → Bool
same_ty gate gate = true
same_ty hall hall = true
same_ty game game = true
same_ty _ _ = false

-- `ClientConn`: a name and a weak pointer.
pub record ClientConn : Type 0 where
  pub name : String
  pub conn : Weak

abbrev pub no_client : ClientConn
no_client = record { name = ""; conn = none }

pub record Context (Any : Type 0) : Type 0 where
  pub kicking : ℤ
  pub ipaddr : ℕ
  pub userid : ℤ
  pub session : String
  pub aeskey : String
  pub client : ContainTy → ClientConn
  pub weak_entry : Option ℕ
  pub context : Option Any
  pub thread : Option ℕ

-- `KICK_NULL` of public/gameConst.h is 0.
unfoldable pub reset : {Any : Type 0} → Context Any → Context Any
reset c = record c { kicking = pos 0; ipaddr = 0; userid = pos 0; session = ""; aeskey = "" }

-- The constructor without a context.
unfoldable pub init_context : {Any : Type 0} → Option ℕ → Context Any
init_context weak_entry = record {
  kicking = pos 0;
  ipaddr = 0;
  userid = pos 0;
  session = "";
  aeskey = "";
  client = λ _. no_client;
  weak_entry = weak_entry;
  context = none;
  thread = none;
}

-- The constructor with a context, which must not be empty.
unfoldable pub init_context_with :
    {Any : Type 0} → Bool → Option ℕ → Option Any → Option (Context Any)
unfolding init_context
init_context_with debug weak_entry context = do
  assert (not debug || is_some context)
  some (record (init_context weak_entry) { context = context })

module _ {Any : Type 0} where
  unfoldable pub set_kicking : ℤ → Context Any → Context Any
  set_kicking kicking c = record c { kicking = kicking }

  unfoldable pub set_from_ip : ℕ → Context Any → Context Any
  set_from_ip inaddr c = record c { ipaddr = inaddr }

  unfoldable pub set_session : String → Context Any → Context Any
  set_session session c = record c { session = session }

  unfoldable pub set_user_id : ℤ → Context Any → Context Any
  set_user_id userid c = record c { userid = userid }

  unfoldable pub set_aes_key : String → Context Any → Context Any
  set_aes_key key c = record c { aeskey = key }

  unfoldable pub set_context : Option Any → Context Any → Context Any
  set_context context c = record c { context = context }

  unfoldable pub set_worker : ℕ → Context Any → Context Any
  set_worker thread c = record c { thread = some thread }

  -- `client_[ty] = client`.
  unfoldable pub set_client : ContainTy → ClientConn → Context Any → Context Any
  set_client ty client c = record c { client = λ t. if same_ty t ty then client else c.client t }

  -- `setClientConn(ty, name, weakConn)`.
  unfoldable pub set_client_conn :
      Bool → ContainTy → String → Weak → Context Any → Option (Context Any)
  unfolding set_client
  set_client_conn debug ty name weak_conn c = do
    assert (not debug || not (is_empty name))
    some (set_client ty (record { name = name; conn = weak_conn }) c)

  -- `resetClientConn`: the pointer goes and the name stays. It also logs.
  unfoldable pub reset_client_conn : ContainTy → Context Any → Context Any
  unfolding set_client
  reset_client_conn ty c = set_client ty (record { name = (c.client ty).name; conn = none }) c

  unfoldable pub get_client_conn : ContainTy → Context Any → ClientConn
  get_client_conn ty c = c.client ty
