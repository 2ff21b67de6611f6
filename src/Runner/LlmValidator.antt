-- ===== src/Runner/LlmValidator.antt =====
-- runner/llm_validator.go: a language model judges a command with a tool, and the answer is parsed.
pub mod Attempts
use cli_demo.Prelude.{
  ℕ, zero, suc, String, ◌<>◌, Bool, true, false, List, [], ◌∷◌, Option, none, some, ◌==◌, string_eq,
  if◌then◌else◌,
}
use cli_demo.GoError.{Error, wrap, plain, validation_unavailable}
use cli_demo.Effect.{Result, ok, err, rewrap, Eff, pure, raise, or_return}

pub record ValidationResult : Type 0 where
  pub safe : Bool
  pub reason : String

-- A block of the model's message: the use of a tool with its name, which may be nil, and a document
-- of type `D`, or something else.
pub data ContentBlock (D : Type 0) : Type 0 where
  tool_use : Option String → D → ContentBlock D
  other_block : ContentBlock D

-- ConverseOutput: nil, with a message, or with another member of the union.
pub data ConverseOutput (D : Type 0) : Type 0 where
  nil_output other_output : ConverseOutput D
  message : List (ContentBlock D) → ConverseOutput D

abbrev pub system_prompt : String
system_prompt =
    "You are a security validator for a shell environment.\nYour job is to judge whether a given shell command is safe to execute.\n\nSafe commands:\n- Read-only operations like ls, cat, head, tail, grep, find, du, df, ps, top, free\n- Commands with safe flags like ls -la, uname -a\n- Navigation commands like cd, pwd\n- Echo and printf for display\n- File modification commands like rm, mv, chmod, chown, truncate on non-system files\n- HTTP GET requests via curl or wget\n- All network requests to localhost or 127.0.0.1 regardless of method\n\nUnsafe commands:\n- File modification on system paths like /etc, /root, /var, /usr, /boot, /sys, /proc\n- Package management: apt, yum, pip, npm install\n- HTTP POST, PUT, DELETE or file upload to external hosts via curl, wget, nc, ssh\n- Process manipulation: kill, reboot, shutdown\n- Disk operations: dd, mkfs, mount\n- Shell escapes and chaining that hide dangerous operations\n- Commands using backticks, $(), or pipe to shell for code injection\n- Writing files whose content would be unsafe if executed, such as malicious scripts or code that performs the unsafe actions listed above\n\nUse the command_safety_judgment tool to report your decision."

abbrev pub tool_name : String
tool_name = "command_safety_judgment"

-- A JSON schema of an object with typed properties.
pub record SchemaProperty : Type 0 where
  pub name : String
  pub type_name : String
  pub description : String

pub record ToolSchema : Type 0 where
  pub properties : List SchemaProperty
  pub required : List String

abbrev pub tool_schema : ToolSchema
tool_schema = record {
  properties =
      record {
        name = "safe";
        type_name = "boolean";
        description = "true if the command is safe to execute, false otherwise";
      }
      ∷ record {
        name = "reason";
        type_name = "string";
        description = "brief explanation of why the command is safe or unsafe";
      }
      ∷ [];
  required = "safe" ∷ "reason" ∷ [];
}

abbrev pub max_retries : ℕ
max_retries = 2

-- ConverseInput: the text of the one message of the user, and the one tool, of which any is to be
-- used.
pub record ConverseInput : Type 0 where
  pub model_id : String
  pub system : String
  pub user_text : String
  pub tool : String
  pub tool_description : String
  pub input_schema : ToolSchema

-- The service and the id of the model; the encoding of a document; encoding/json into the two fields,
-- of which a missing one has its zero value.
pub record BedrockValidator (W D : Type 0) : Type 0 where
  pub converse : ConverseInput → Eff W (ConverseOutput D)
  pub model_id : String
  pub marshal_document : D → Result String
  pub unmarshal : String → Result ValidationResult

-- tu.Value.Name == nil || *tu.Value.Name != toolName
abbrev is_tool : Option String → Bool
is_tool none = false
is_tool (some name) = name == tool_name

module _ {W D : Type 0} (v : BedrockValidator W D) where
  open v use {converse, model_id, marshal_document, unmarshal}

  unfoldable pub converse_input : String → ConverseInput
  converse_input command = record {
    model_id = model_id;
    system = system_prompt;
    user_text = "Judge this command: " <> command;
    tool = tool_name;
    tool_description = "Report whether a shell command is safe or unsafe to execute";
    input_schema = tool_schema;
  }

  parse_raw : Result String → Result ValidationResult
  parse_raw (ok raw) = rewrap "parse tool result" (unmarshal raw)
  parse_raw (err e) = err (wrap "marshal tool input" e)

  parse_blocks : List (ContentBlock D) → Result ValidationResult
  unfolding parse_raw
  parse_blocks [] = err (plain "no expected tool use block in response")
  parse_blocks (other_block ∷ blocks) = parse_blocks blocks
  parse_blocks (tool_use name input ∷ blocks) =
      let rest = parse_blocks blocks in
      if is_tool name then parse_raw (marshal_document input) else rest

  unfoldable pub parse_tool_use_result : ConverseOutput D → Result ValidationResult
  unfolding parse_blocks
  parse_tool_use_result nil_output = err (plain "nil converse output")
  parse_tool_use_result other_output = err (plain "unexpected converse output type")
  parse_tool_use_result (message blocks) = parse_blocks blocks

  -- The rest of the loop after an answer that was parsed.
  parsed : (Error → Eff W ValidationResult) → Result ValidationResult → Eff W ValidationResult
  parsed again (ok result) = pure result
  parsed again (err e) = again e

  -- `n` more turns of the loop, with the last error of parsing.
  unfoldable pub attempts : ℕ → ConverseInput → Error → Eff W ValidationResult
  unfolding parsed
  attempts zero input e = raise (wrap "bedrock converse: retries exhausted" e)
  attempts (suc n) input e =
      or_return (converse input) (λ e. raise (validation_unavailable e))
        (λ output. parsed (attempts n input) (parse_tool_use_result output))

  unfoldable pub validate : String → Eff W ValidationResult
  validate command = attempts (suc max_retries) (converse_input command) (plain "<nil>")
