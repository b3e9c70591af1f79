-- ===== src/Tasks/Params.antt =====
-- The `params` of a request: a JSON text as the agent reads it. An object is the list of its
-- members, without repeated keys; a key matches as it is written.
use open_v_center_agent_hype.Base.{
  eq_iff, eq_refl, arith, ◌≡◌, ◌≢◌, String, Option, none, some, List, [], ◌∷◌, ◌==◌, if◌then◌else◌,
}

pub data Value : Type 0 where
  null : Value
  text : String → Value
  other : Value

-- `absent` is an empty RawMessage, `malformed` what is no JSON object.
pub data Params : Type 0 where
  absent null_params malformed : Params
  object : List (String × Value) → Params

unfoldable pub member : String → List (String × Value) → Option Value
member k [] = none
member k ((j, v) ∷ m) = if j == k then some v else member k m

-- Go's map assignment.
unfoldable pub put : String → Value → List (String × Value) → List (String × Value)
put k v [] = (k, v) ∷ []
put k v ((j, w) ∷ m) = let rest = put k v m in if j == k then (k, v) ∷ m else (j, w) ∷ rest

-- A string field of a struct after Unmarshal: `none` is the error of a value of another type.
unfoldable pub decode_text : Option Value → Option String
decode_text none = some ""
decode_text (some null) = some ""
decode_text (some (text s)) = some s
decode_text (some other) = none

abbrev members : Params → List (String × Value)
members absent = []
members null_params = []
members malformed = []
members (object m) = m

-- withAction.
unfoldable pub with_action : Params → String → Params
with_action p action = if action == "" then p else object (put "action" (text action) (members p))

abbrev or_empty : Option String → String
or_empty none = ""
or_empty (some s) = s

-- The `action` that isDeleteAction and its like decode, which ignore the decoder's error.
unfoldable pub action_of : Params → String
unfolding decode_text member
action_of p = or_empty (decode_text (member "action" (members p)))

-- A text field that a handler decodes alone.
unfoldable pub text_of : String → Params → String
unfolding decode_text member
text_of k p = or_empty (decode_text (member k (members p)))

member-put : (k : String) (v : Value) (m : List (String × Value)) → member k (put k v m) ≡ some v
unfolding member put
member-put k v [] = rw (eq_refl k)
member-put k v ((j, w) ∷ m) = ground (arith, eq_refl k, eq_iff j k, member-put k v m)

-- Folding an action into the parameters, whatever they were, makes it the action that the
-- handlers read.
action_of-with_action :
    (p : Params) (action : String) → action ≢ "" → action_of (with_action p action) ≡ action
unfolding action_of with_action
action_of-with_action p action n =
    ground (arith, eq_iff action "", member-put "action" (text action) (members p))
