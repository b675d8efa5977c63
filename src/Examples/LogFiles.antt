-- ===== src/Examples/LogFiles.antt =====
-- The log of an invocation on concrete messages.
use oblak.Prelude.{◌≡◌, refl}
use oblak.Text.{Bytes, codes, bytes_eq, trim_space}
use oblak.AgentProto.{ℤ}
use oblak.Server.Logs.{trim_brace}
use oblak.Server.Logs.Written.{shown}

-- A function that prints an object.
abbrev printed : Bytes × Bytes
printed = (codes "stdout", codes "{a}")

abbrev digit : ℤ → Bytes
digit _ = codes "1"

-- The closing brace of the object is lost.
printed_text : shown printed ≡ record { stream = codes "stdout"; message = codes "{a" }
unfolding trim_brace trim_space bytes_eq
printed_text = refl
