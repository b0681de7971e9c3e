-- ===== src/Agent/Services.antt =====
-- What `AgentExecutor` of core/pkg/engine/executor/agent.go uses: the agent's definition, the model,
-- the memory and knowledge stores, encoding/json and fmt.
use Prim.Native.Char.{Char}
use Prim.Native.String.{◌++◌ as str_append}
use flowgent.Prelude.{ℕ, String, Bool, Option, List}
use flowgent.Prelude.Int.{ℤ}
use flowgent.Value.{Object}
use flowgent.Schema.Required.{Violation}

pub record Agent (T : Type 0) : Type 0 where
  pub soul : String
  pub instruction : String
  pub model : String
  pub temperature : Option T
  pub max_tokens : ℤ
  pub output_schema : Option Object

pub record Memory : Type 0 where
  pub flow_id : String
  pub node_id : String
  pub content : String
  pub retry_count : ℕ
  pub last_error : String

-- GetAgent: an error, no agent, or one.
pub data Fetched (T : Type 0) : Type 0 where
  fetch_error : String → Fetched T
  not_found : Fetched T
  found : Agent T → Fetched T

-- Generate and json.Unmarshal: an error, or what they return.
pub data Fallible (A : Type 0) : Type 0 where
  bad : String → Fallible A
  good : A → Fallible A

pub record Outside : Type 1 where
  pub S : Type 0
  -- float64, and the default 0.3
  pub T : Type 0
  pub default_temperature : T
  pub get_agent : String → S → S × Fetched T
  pub generate : String → String → String → T → ℤ → S → S × Fallible String
  -- The memory of a node: its content. `has_memory` and `has_knowledge` tell if the stores are set.
  pub has_memory : Bool
  pub get_memory : String → String → S → S × Option String
  pub upsert_memory : Memory → S → S
  pub has_knowledge : Bool
  pub search_knowledge : String → S → S × List (String × String)
  -- encoding/json; null decodes to a nil map
  pub marshal : Object → String
  pub marshal_indent : Object → String
  pub unmarshal : String → Fallible (Option Object)
  -- fmt: %d of a number, %q of a text, %v of a map, the text of a violation
  pub show : ℕ → String
  pub quote : String → String
  pub sprint_map : Object → String
  pub sprint_violation : Violation → String
  -- unicode.IsSpace, the bytes of a text, and whether a float64 is whole
  pub is_space : Char → Bool
  pub size : String → ℕ
  pub prefix : ℕ → String → String
  pub is_whole : ℕ → Bool

infixr 5 ◌+++◌
abbrev pub ◌+++◌ : String → String → String
a +++ b = str_append a b
