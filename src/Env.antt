-- ===== src/Env.antt =====
-- What the server uses and does not implement: the protobuf runtime, the system's clock and random
-- source, and the game's own state, which its callbacks read and write.
use godotnet.Base.{ℕ, String, Option, List, Bytes}
use godotnet.Base.Int.{ℤ}
use godotnet.Control.{ClientFrame, ServerFrame}

-- The populated field of a oneof: a message, or a field of another kind.
pub data Field (M : Type 0) : Type 0 where
  message_field : M → Field M
  other_field : Field M

pub record Env : Type 1 where
  pub Msg : Type 0
  pub Game : Type 0
  -- m.ProtoReflect().Descriptor().FullName()
  pub full_name : Msg → String
  -- proto.Clone of the prototype, proto.Reset of the clone and proto.Unmarshal into it
  pub unmarshal : Msg → Bytes → Option Msg
  pub marshal : Msg → Option Bytes
  -- for each oneof of the message's type, in order, what WhichOneof and Get give
  pub oneofs : Msg → List (Option (Field Msg))
  pub unmarshal_frame : Bytes → Option ClientFrame
  pub marshal_frame : ServerFrame → Option Bytes
  -- the n-th reading of crypto/rand, of that many bytes
  pub random : ℕ → ℕ → Option Bytes
  -- the n-th reading of time.Now(), in nanoseconds
  pub clock : ℕ → ℤ
