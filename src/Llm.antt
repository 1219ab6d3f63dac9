-- ===== src/Llm.antt =====
-- crates/qpedia-llm/src/lib.rs: the messages and the tool calls that the two agents exchange with a
-- model.
use qpedia.Prelude.{ℕ, Bool, Option, none, some, List, [], ◌∷◌, if◌then◌else◌}
use qpedia.Text.{Text, text_eq}

-- A tool's argument, as far as the tools read one.
pub data Argument : Type 0 where
  str : Text → Argument
  num : ℕ → Argument
  other : Argument

pub record ToolCall : Type 0 where
  pub id : Text
  pub name : Text
  pub arguments : List (Text × Argument)

pub data Message : Type 0 where
  user : Text → Message
  assistant : Text → List ToolCall → Message
  tool : (id content : Text) (is_error : Bool) → Message

-- `args.get(key)`
unfoldable pub get : Text → List (Text × Argument) → Option Argument
unfolding text_eq
get key [] = none
get key ((k, v) ∷ args) = if text_eq k key then some v else get key args

abbrev as_str : Option Argument → Option Text
as_str (some (str s)) = some s
as_str _ = none

abbrev as_u64 : Option Argument → Option ℕ
as_u64 (some (num n)) = some n
as_u64 _ = none

-- `args.get(key).and_then(|v| v.as_str())`
unfoldable pub str_argument : Text → List (Text × Argument) → Option Text
unfolding get
str_argument key args = as_str (get key args)

-- `args.get(key).and_then(|v| v.as_u64())`
unfoldable pub num_argument : Text → List (Text × Argument) → Option ℕ
unfolding get
num_argument key args = as_u64 (get key args)
