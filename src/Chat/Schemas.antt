-- ===== src/Chat/Schemas.antt =====
-- What the model is shown: the schemas of pipes and controls, and `ChatAgent.__init__` (turn.py).
use entourage.Prelude.{
  String, Option, List, [], ◌∷◌, ◌++◌, Bool, map, eqb, length, mem_text, any, select, if◌then◌else◌,
  Dict, Entry, assign, Result,
}
use entourage.Mail.{Json, Items, Fields}
use entourage.Mail.Json.{str, arr, obj}
use entourage.Mail.Items.{nil, cons}
use entourage.Mail.Fields.{end, field}
use entourage.Executables.Types.{Failure}
use entourage.Chat.Types.{Message, Tool, Pipe, Prompt, Agent}

abbrev items_of : List Json → Items
items_of [] = nil
items_of (j ∷ js) = cons j (items_of js)

abbrev fields_of : List (Entry Json) → Fields
fields_of [] = end
fields_of (e ∷ es) = field e.key e.value (fields_of es)

abbrev pub object : List (Entry Json) → Json
object es = obj (fields_of es)

abbrev pub item : String → Json → Entry Json
item key value = record { key = key; value = value }

abbrev array_of : List String → Json
array_of ts = arr (items_of (map str ts))

abbrev function_schema : String → String → List (Entry Json) → List String → Json
function_schema name description properties needed = object (
    item "type" (str "function")
    ∷ item "function" (
        object (
          item "name" (str name)
          ∷ item "description" (str description)
          ∷ item "parameters" (
              object (
                item "type" (str "object")
                ∷ item "properties" (object properties)
                ∷ item "required" (array_of needed)
                ∷ []))
          ∷ []))
    ∷ [])

abbrev plain_string : Json
plain_string = object (item "type" (str "string") ∷ [])

abbrev task_property : Entry Json
task_property = item "task" (
    object
      (item "type" (str "string") ∷ item "description" (str "What the worker should do.") ∷ []))

abbrev background_property : Entry Json
background_property = item "background" (
    object (
      item "type" (str "boolean")
      ∷ item "description"
          (str "True to go on and take the result as a message; false to wait for it.")
      ∷ []))

-- `Pipe.schema`.
abbrev pub pipe_schema : Pipe → Json
pipe_schema p =
    function_schema p.name p.description
      (if eqb (length p.modes) 2
        then task_property ∷ background_property ∷ []
        else task_property ∷ [])
      ("task" ∷ [])

abbrev pub panel_tools : Dict Json
panel_tools =
    item "steer" (
      function_schema "steer" "Send an instruction to running work."
        (item "work" plain_string ∷ item "text" plain_string ∷ []) ("work" ∷ "text" ∷ []))
    ∷ item "cancel" (
        function_schema "cancel" "Cancel running work; a late result is discarded."
          (item "work" plain_string ∷ []) ("work" ∷ []))
    ∷ item "answer" (
        function_schema "answer" "Answer a question running work has asked."
          (item "work" plain_string ∷ item "text" plain_string ∷ []) ("work" ∷ "text" ∷ []))
    ∷ []

abbrev pub ask_tool : Json
ask_tool =
    function_schema "ask_caller"
      "Ask whoever gave you this task a question; their answer arrives as a message."
      (item "text" plain_string ∷ []) ("text" ∷ [])

-- `{x.name: x for x in xs}`: the last of a name wins, at the place of the first.
abbrev by_name {ℓ} : {A : Type ℓ} → (A → String) → List A → Dict A → Dict A
by_name name [] d = d
by_name name (x ∷ xs) d = by_name name xs (assign (name x) x d)

abbrev pub granted : String → List Pipe → Bool
granted name pipes = any (λ (p : Pipe). mem_text name p.grants) pipes

abbrev pub new_agent :
    (List Message → List Json → Result Failure (Option Message))
    → List Tool
    → Option Prompt
    → Option String
    → List Pipe
    → Agent
new_agent complete tools system_prompt output pipes = record {
  complete = complete;
  tools = by_name (λ (t : Tool). t.name) tools [];
  pipes = by_name (λ (p : Pipe). p.name) pipes [];
  schemas =
      map (λ (t : Tool). t.schema) tools
      ++ map pipe_schema pipes
      ++ map (λ (e : Entry Json). e.value)
          (select (λ (e : Entry Json). granted e.key pipes) panel_tools);
  system_prompt = system_prompt;
  output = output;
}
