-- ===== src/Session/Identifiers.antt =====
-- The patterns for names and identifiers in service.py. `fullmatch` wants the whole text.
use local_agent_runtime.Base.{ℕ, Text, Bool, false, ◌&&◌, ◌||◌, [], ◌∷◌, leb, ◌==◌, all, length}

is_digit : ℕ → Bool
is_digit c = leb b'0' c && leb c b'9'

is_lower : ℕ → Bool
is_lower c = leb b'a' c && leb c b'z'

is_upper : ℕ → Bool
is_upper c = leb b'A' c && leb c b'Z'

-- `[a-zA-Z0-9_.:-]`
is_name_char : ℕ → Bool
unfolding is_digit is_lower is_upper
is_name_char c =
    is_lower c || is_upper c || is_digit c || c == b'_' || c == b'.' || c == b':' || c == b'-'

-- `TOOL_NAME`
unfoldable pub is_tool_name : Text → Bool
unfolding is_name_char
is_tool_name [] = false
is_tool_name (c ∷ s) = (is_lower c || is_upper c) && all is_name_char s && leb (length s) 127

-- `TOOL_REQUEST_ID`
unfoldable pub is_request_id : Text → Bool
unfolding is_name_char
is_request_id [] = false
is_request_id (c ∷ s) =
    (is_lower c || is_upper c || is_digit c) && all is_name_char s && leb (length s) 127

is_code_char : ℕ → Bool
unfolding is_digit is_lower
is_code_char c = is_lower c || is_digit c || c == b'_' || c == b'-'

-- the task code, `[a-z][a-z0-9_-]{0,63}`
unfoldable pub is_task_code : Text → Bool
unfolding is_code_char
is_task_code [] = false
is_task_code (c ∷ s) = is_lower c && all is_code_char s && leb (length s) 63
