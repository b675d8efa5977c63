-- ===== src/AgentProto.antt =====
-- internal/agentproto/proto.go: the messages between the host and the agent in the virtual machine.
pub mod Conn
use oblak.Prelude.{ℕ, Option, none, some, [], ◌++◌}
use oblak.Text.{Bytes, codes}

-- `negsuc n` is -(n + 1).
pub data ℤ : Type 0 where
  pos : ℕ → ℤ
  negsuc : ℕ → ℤ

-- The values of the field `type`; `other` stands for every string that is none of them.
pub data MessageType : Type 0 where
  type_build type_exec type_output type_done type_error other : MessageType

pub record Message : Type 0 where
  pub type : MessageType
  pub channel : Bytes
  pub content : Bytes
  pub exit_code : Option ℤ
  pub error : Bytes

abbrev blank : MessageType → Message
blank t = record { type = t; channel = []; content = []; exit_code = none; error = [] }

abbrev pub build : Message
build = blank type_build

abbrev pub exec : Bytes → Message
exec payload = record {
  type = type_exec;
  channel = [];
  content = payload;
  exit_code = none;
  error = [];
}

abbrev pub output : Bytes → Bytes → Message
output channel content = record {
  type = type_output;
  channel = channel;
  content = content;
  exit_code = none;
  error = [];
}

abbrev pub done : ℤ → Message
done code = record {
  type = type_done;
  channel = [];
  content = [];
  exit_code = some code;
  error = [];
}

abbrev pub agent_error : Bytes → Message
agent_error msg = record {
  type = type_error;
  channel = [];
  content = [];
  exit_code = none;
  error = msg;
}

-- The text of a type; `unknown` is that of a type that is none of the five.
abbrev pub type_text : Bytes → MessageType → Bytes
type_text unknown type_build = codes "build"
type_text unknown type_exec = codes "exec"
type_text unknown type_output = codes "output"
type_text unknown type_done = codes "done"
type_text unknown type_error = codes "error"
type_text unknown other = unknown

-- Message.String; `decimal` is the verb %d.
unfoldable pub message_string : (ℤ → Bytes) → Bytes → Message → Bytes
message_string decimal unknown m =
    let start = codes "{type:" ++ type_text unknown m.type in
    elim m.exit_code [
      | some code ↦
          start
          ++ (codes " exit_code:" ++ (decimal code ++ (codes " error:" ++ (m.error ++ codes "}"))))
      | none ↦
          start
          ++ (codes " channel:" ++ (m.channel ++ (codes " data:" ++ (m.content ++ codes "}"))))
    ]
