-- ===== src/Control.antt =====
-- controlpb: the messages of control.proto as the generated code declares them. Their encoding is
-- the protobuf runtime's, and is a parameter (Env.antt).
use godotnet.Base.{ℕ, String, Bool, Option, Bytes}

pub record Login : Type 0 where
  pub credentials : Bytes

pub record LoginResponse : Type 0 where
  pub ok : Bool
  pub error_message : String
  pub player_id : ℕ
  pub session_token : String
  pub udp_endpoint : String

pub record UdpHandshake : Type 0 where
  pub player_id : ℕ
  pub session_token : String

pub record UdpHandshakeAck : Type 0 where
  pub ok : Bool
  pub player_id : ℕ

pub record Ping : Type 0 where
  pub nonce : ℕ

pub record Pong : Type 0 where
  pub nonce : ℕ

pub record RpcRequest : Type 0 where
  pub correlation_id : ℕ
  pub payload : Bytes

pub record RpcResponse : Type 0 where
  pub correlation_id : ℕ
  pub ok : Bool
  pub error_message : String
  pub payload : Bytes

-- The oneof `body` of a ClientFrame, and a frame with no body as `none`.
pub data ClientBody : Type 0 where
  login : Login → ClientBody
  udp_handshake : UdpHandshake → ClientBody
  pong : Pong → ClientBody
  game_payload : Bytes → ClientBody
  rpc_request : RpcRequest → ClientBody

abbrev pub ClientFrame : Type 0
ClientFrame = Option ClientBody

pub data ServerFrame : Type 0 where
  login_response : LoginResponse → ServerFrame
  udp_handshake_ack : UdpHandshakeAck → ServerFrame
  ping : Ping → ServerFrame
  game_payload : Bytes → ServerFrame
  rpc_response : RpcResponse → ServerFrame
