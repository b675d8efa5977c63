-- ===== src/Analyzer/Llm.antt =====
-- internal/analyzer/llm/qwen.go: the verdicts of the language model behind Ollama.
-- The model's answers and `encoding/json` are parameters.
use oblak.Prelude.{
  ◌==◌, if◌then◌else◌, Result, ok, ℕ, Option, none, some, [], ◌++◌, ◌>>=◌, or_err, guard, ◌>>◌,
}
use oblak.Text.{Bytes, codes, bytes_eq}

pub data SastVerdict : Type 0 where
  failure malicious safe : SastVerdict

pub data JudgeError : Type 0 where
  read_failed marshal_failed request_failed bad_status bad_envelope bad_verdict : JudgeError

-- The response of an HTTP exchange: its status code and its body.
pub record Response : Type 0 where
  pub status_code : ℕ
  pub body : Bytes

abbrev pub default_url : Bytes
default_url = codes "http://localhost:11434/api/generate"

unfoldable pub judge_url : Bytes → Bytes
unfolding bytes_eq
judge_url base_url = if bytes_eq base_url [] then default_url else base_url ++ codes "/api/generate"

unfoldable pub model_name : Bytes → Bytes
unfolding bytes_eq
model_name name = if bytes_eq name [] then codes "qwen2.5:3b" else name

unfoldable pub sast_verdict : Bytes → SastVerdict
sast_verdict response = if bytes_eq response (codes "MALICIOUS") then malicious else safe

-- `post` sends a body to an address, `prompt` renders the request, and `decode` reads the field
-- `response` of a body.
module _ (post : Bytes → Bytes → Option Response) (prompt : Bytes → Bytes → Bytes → Bytes)
    (decode : Bytes → Option Bytes) where
  unfoldable ask_for_sast : Bytes → Bytes → Bytes → Bytes → SastVerdict × Option JudgeError
  unfolding judge_url sast_verdict
  ask_for_sast base_url model message code =
      elim (post (judge_url base_url) (prompt model message code)) [
        | none ↦ (failure, some request_failed)
        | some resp ↦ elim (decode resp.body) [
          | none ↦ (failure, some bad_envelope)
          | some response ↦ (sast_verdict response, none)
        ]
      ]

-- A verdict of doubt counts as a malicious one.
unfoldable pub settle : Bytes → Bytes
settle verdict = if bytes_eq verdict (codes "SUSPICIOUS") then codes "MALICIOUS" else verdict

-- The report without its output streams, where it can be read and rendered.
abbrev lean : Bytes → Option Bytes → Bytes
lean log_data none = log_data
lean log_data (some behavior) = behavior

-- `read` is os.ReadFile; `compact` reads a report and renders its behaviour alone; `prompt` renders
-- the request; `envelope` reads the field `response` of a body, `verdict` the field `verdict` of that.
module _ (read : Bytes → Option Bytes) (compact : Bytes → Option Bytes)
    (prompt : Bytes → Bytes → Option Bytes) (post : Bytes → Bytes → Option Response)
    (envelope verdict : Bytes → Option Bytes) where
  unfoldable ask_for_logs : Bytes → Bytes → Bytes → Result JudgeError Bytes
  unfolding judge_url model_name settle
  ask_for_logs base_url model log_path = do
    log_data ← or_err read_failed (read log_path)
    let optimized = lean log_data (compact log_data)
    request ← or_err marshal_failed (prompt (model_name model) optimized)
    resp ← or_err request_failed (post (judge_url base_url) request)
    guard (resp.status_code == 200) bad_status
    inner ← or_err bad_envelope (envelope resp.body)
    answer ← or_err bad_verdict (verdict inner)
    ok (settle answer)
