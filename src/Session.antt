-- ===== src/Session.antt =====
-- session.go: a player's session, and the channel of its TCP writer.
-- `Username` and `UserData` belong to the game: the library neither reads nor writes them.
use godotnet.Base.{
  ℕ, String, Bool, true, false, Option, none, some, List, [], ◌∷◌, ◌++◌, Bytes, length, ltb,
  if◌then◌else◌,
}
use godotnet.Base.Int.{ℤ}

pub data SessionAuthState : Type 0 where
  session_pre_login session_awaiting_udp session_ready : SessionAuthState

pub record Channel : Type 0 where
  pub capacity : ℕ
  pub queued : List Bytes

-- A non-blocking send: the case of the `select`, or its `default`.
unfoldable pub try_send : Channel → Bytes → Option Channel
try_send c payload =
    if ltb (length c.queued) c.capacity
    then some (record c { queued = c.queued ++ payload ∷ [] })
    else none

pub record Session : Type 0 where
  pub id : ℕ
  pub connected_at : ℤ
  pub auth_state : SessionAuthState
  pub session_token : String
  pub tcp : Bool
  pub udp_addr : Option String
  pub send_tcp : Option Channel
  pub last_seen_unix_nano : ℤ
  pub last_ping_nonce : ℕ
  pub disconnect_once : Bool

-- atomicOnce.Do: whether the function runs, and the state of the once afterwards.
unfoldable pub do_once : Bool → Bool × Bool
do_once false = (true, true)
do_once true = (false, true)
