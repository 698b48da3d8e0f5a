-- ===== src/Examples/Demo.antt =====
-- A small game: messages are texts, and the first byte of a frame says what it is.
use godotnet.Base.{ℕ, String, Option, none, some, [], ◌∷◌, Bytes, ◌==◌, if◌then◌else◌}
use godotnet.Base.Int.{pos}
use godotnet.Control.{ClientFrame, ClientBody, login, udp_handshake, rpc_request}
use godotnet.Env.{Env, message_field}
use godotnet.Callbacks.{returned}
use godotnet.Server.{Config, Server, new_server}

abbrev pub parse : Bytes → Option ClientFrame
parse [] = none
parse (tag ∷ rest) =
    if tag == 1
    then some (some (login (record { credentials = rest })))
    else if tag == 2
    then some (some (udp_handshake (record { player_id = 7; session_token = "fallback-1" })))
    else if tag == 4
    then some (some (ClientBody.game_payload rest))
    else if tag == 5
    then some (some (rpc_request (record { correlation_id = 77; payload = rest })))
    else none

instance abbrev pub demo : Env
demo = record {
  Msg = String;
  Game = ℕ;
  full_name = λ m. m;
  unmarshal = λ prototype bytes. some prototype;
  marshal = λ m. some (1 ∷ 2 ∷ []);
  oneofs = λ m. some (message_field m) ∷ [];
  unmarshal_frame = parse;
  marshal_frame = λ f. some (9 ∷ []);
  random = λ n k. none;
  clock = λ n. pos n;
}

-- Everybody who asks is player 7.
abbrev pub config : Config
config = record {
  tcp_addr = ":7777";
  udp_addr = ":7778";
  udp_advertise_addr = "";
  tick_rate = pos 0;
  authenticate = some (λ creds game. (returned (7, none), game));
  login_prototype = some "Login";
  client_message_prototype = some "Move";
  rpc_request_prototype = some "Buy";
  on_auth = none;
  on_connect = none;
  on_disconnect = some (λ view reason game. (returned tt, game));
  max_frame_len = 0;
  send_queue_depth = pos 1;
  event_queue_depth = pos 1;
  max_udp_payload = pos 0;
  ping_interval = pos 0;
  ping_timeout = pos 0;
}

abbrev pub start : Server
start = new_server config 0
