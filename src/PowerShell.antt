-- ===== src/PowerShell.antt =====
-- internal/hyperv/powershell.go: the runners of PowerShell, what they log, and how they report. The process
-- is what it printed, with the error of the run and that of the context. The locks and the text of a log
-- entry are not modelled. internal/tasks/vm_management.go: extractPSErrorDetail; vm_inventory.go:
-- trimPowerShellOutput.
pub mod Details
use open_v_center_agent_hype.Base.{
  ℕ, zero, Bool, true, false, not, ◌&&◌, ◌||◌, Option, none, some, List, [], ◌∷◌, ◌++◌,
  if◌then◌else◌, nat_eq, Text, blank, trim_space, any, String, suc, ◌⊎◌, inl, inr, ltb, length, map,
}

-- What follows a prefix.
unfoldable pub strip_prefix : Text → Text → Option Text
strip_prefix [] t = some t
strip_prefix (c ∷ p) [] = none
strip_prefix (c ∷ p) (d ∷ t) = let rest = strip_prefix p t in if nat_eq c d then rest else none

abbrev pub or_text : Option Text → Text → Text
or_text none t = t
or_text (some s) t = s

abbrev or_else : Option Text → Option Text → Option Text
or_else none o = o
or_else (some s) o = some s

-- strings.TrimPrefix.
abbrev pub trim_prefix : Text → Text → Text
trim_prefix p t = or_text (strip_prefix p t) t

-- What follows the first place where a text contains another.
unfoldable pub after : Text → Text → Option Text
after m [] = strip_prefix m []
after m (c ∷ t) = let later = after m t in or_else (strip_prefix m (c ∷ t)) later

abbrev is_found : Option Text → Bool
is_found none = false
is_found (some t) = true

abbrev pub take : ℕ → Text → Text
take zero t = []
take (suc n) [] = []
take (suc n) (c ∷ t) = c ∷ take n t

-- "...[truncated]". The text is one of bytes.
abbrev pub truncated_mark : Text
truncated_mark = 46 ∷ 46 ∷ 46 ∷ 91 ∷ 116 ∷ 114 ∷ 117 ∷ 110 ∷ 99 ∷ 97 ∷ 116 ∷ 101 ∷ 100 ∷ 93 ∷ []

unfoldable pub truncate : Text → ℕ → Text
truncate s max_len = if ltb max_len (length s) then take max_len s ++ truncated_mark else s

abbrev controlled_errors : List Text
controlled_errors =
    (86 ∷ 77 ∷ 95 ∷ 78 ∷ 79 ∷ 84 ∷ 95 ∷ 70 ∷ 79 ∷ 85 ∷ 78 ∷ 68 ∷ [])
    ∷ (86 ∷ 77 ∷ 95 ∷ 78 ∷ 79 ∷ 84 ∷ 95 ∷ 79 ∷ 70 ∷ 70 ∷ [])
    ∷ (83 ∷ 78 ∷ 65 ∷ 80 ∷ 83 ∷ 72 ∷ 79 ∷ 84 ∷ 95 ∷ 78 ∷ 79 ∷ 84 ∷ 95 ∷ 70 ∷ 79 ∷ 85 ∷ 78 ∷ 68 ∷ [])
    ∷ (65 ∷ 76 ∷ 82 ∷ 69 ∷ 65 ∷ 68 ∷ 89 ∷ 95 ∷ 72 ∷ 65 ∷ [])
    ∷ (78 ∷ 79 ∷ 84 ∷ 95 ∷ 72 ∷ 65 ∷ [])
    ∷ (78 ∷ 79 ∷ 95 ∷ 68 ∷ 86 ∷ 68 ∷ 95 ∷ 68 ∷ 82 ∷ 73 ∷ 86 ∷ 69 ∷ [])
    ∷ (68 ∷ 86 ∷ 68 ∷ 95 ∷ 65 ∷ 76 ∷ 82 ∷ 69 ∷ 65 ∷ 68 ∷ 89 ∷ 95 ∷ 77 ∷ 79 ∷ 85 ∷ 78 ∷ 84 ∷ 69 ∷ 68
        ∷ [])
    ∷ (86 ∷ 77 ∷ 95 ∷ 78 ∷ 79 ∷ 84 ∷ 95 ∷ 70 ∷ 79 ∷ 85 ∷ 78 ∷ 68 ∷ 95 ∷ 79 ∷ 82 ∷ 95 ∷ 78 ∷ 79 ∷ 84
        ∷ 95 ∷ 72 ∷ 65 ∷ [])
    ∷ []

unfoldable pub is_controlled_error : Text → Bool
is_controlled_error stderr = any (λ m. is_found (after m stderr)) controlled_errors

-- A process that was started: the error of its run, that of the context, and what it printed.
pub record Process : Type 0 where
  pub error : Option Text
  pub cancelled : Option Text
  pub stdout : Text
  pub stderr : Text

-- An entry of the log of errors: the runner, and whether the time was over.
pub data ErrorEntry : Type 0 where
  timed_out failed : String → ErrorEntry

-- Whether runs are logged, and to a file of errors; how many were logged; and the errors.
pub record Log : Type 0 where
  pub is_debug : Bool
  pub has_errors : Bool
  pub runs : ℕ
  pub errors : List ErrorEntry

abbrev pub log_ps_debug : Log → Log
log_ps_debug l = if l.is_debug then record l { runs = suc l.runs } else l

abbrev pub log_ps_error : ErrorEntry → Log → Log
log_ps_error e l = if l.has_errors then record l { errors = e ∷ l.errors } else l

-- "powershell error: ", "powershell execution failed: " and "powershell timed out: ".
abbrev pub error_prefix : Text
error_prefix =
    112 ∷ 111 ∷ 119 ∷ 101 ∷ 114 ∷ 115 ∷ 104 ∷ 101 ∷ 108 ∷ 108 ∷ 32 ∷ 101 ∷ 114 ∷ 114 ∷ 111 ∷ 114
    ∷ 58 ∷ 32 ∷ []

abbrev pub execution_prefix : Text
execution_prefix =
    112 ∷ 111 ∷ 119 ∷ 101 ∷ 114 ∷ 115 ∷ 104 ∷ 101 ∷ 108 ∷ 108 ∷ 32 ∷ 101 ∷ 120 ∷ 101 ∷ 99 ∷ 117
    ∷ 116 ∷ 105 ∷ 111 ∷ 110 ∷ 32 ∷ 102 ∷ 97 ∷ 105 ∷ 108 ∷ 101 ∷ 100 ∷ 58 ∷ 32 ∷ []

abbrev timeout_prefix : Text
timeout_prefix =
    112 ∷ 111 ∷ 119 ∷ 101 ∷ 114 ∷ 115 ∷ 104 ∷ 101 ∷ 108 ∷ 108 ∷ 32 ∷ 116 ∷ 105 ∷ 109 ∷ 101 ∷ 100
    ∷ 32 ∷ 111 ∷ 117 ∷ 116 ∷ 58 ∷ 32 ∷ []

-- The message of a run that failed.
abbrev pub quiet : Text → Process → Text
quiet e r =
    if not (blank (trim_space r.stdout))
    then execution_prefix ++ trim_space r.stdout
    else execution_prefix ++ e

abbrev failure : Text → Process → Text
failure e r =
    if not (blank (trim_space r.stderr)) then error_prefix ++ trim_space r.stderr else quiet e r

-- The error, or the output.
abbrev pub Reply : Type 0
Reply = Log × (Text ⊎ Text)

abbrev pub report_failure : String → Text → Option Text → Process → Log → Reply
report_failure runner e (some c) r l =
    (log_ps_error (timed_out runner) l, inl (timeout_prefix ++ c))
report_failure runner e none r l = (
  if is_controlled_error (trim_space r.stderr) then l else log_ps_error (failed runner) l,
  inl (failure e r),
)

-- What both runners do once the process has ended.
abbrev pub end_run : String → Option Text → Process → Log → Reply
end_run runner none r l = (log_ps_debug l, inr r.stdout)
end_run runner (some e) r l = report_failure runner e r.cancelled r (log_ps_debug l)

unfoldable pub run_power_shell : Process → Log → Reply
run_power_shell r l = end_run "RunPowerShell" r.error r l

-- A runner that streams. Its process may not start; its output is lines, and the callback is given each,
-- trimmed.
pub data Stream : Type 0 where
  no_pipe no_start : Text → Stream
  streams : List Text → Process → Stream

abbrev joined_lines : List Text → Text
joined_lines [] = []
joined_lines (t ∷ ts) = t ++ (10 ∷ joined_lines ts)

unfoldable pub run_power_shell_stream : String → Stream → Log → List Text × Reply
run_power_shell_stream runner (no_pipe e) l = ([], (l, inl e))
run_power_shell_stream runner (no_start e) l = ([], (l, inl e))
run_power_shell_stream runner (streams lines r) l =
    (map trim_space lines, end_run runner r.error (record r { stdout = joined_lines lines }) l)

-- How the output is decoded.
pub data Decoded {ℓ} (A : Type ℓ) : Type ℓ where
  value : A → Decoded A
  run_failed : Text → Decoded A
  empty_output undecodable : Decoded A

module _ {ℓ} {A : Type ℓ} (decode : Text → Option A) where
  abbrev or_undecodable : Option A → Decoded A
  or_undecodable none = undecodable
  or_undecodable (some a) = value a

  abbrev decode_output : Text ⊎ Text → Decoded A
  decode_output (inl e) = run_failed e
  decode_output (inr out) =
      let t = trim_space (trim_prefix (65279 ∷ []) out) in
      if blank t then empty_output else or_undecodable (decode t)

  unfoldable pub run_power_shell_json : Process → Log → Log × Decoded A
  unfolding run_power_shell
  run_power_shell_json r l = let s = run_power_shell r l in (s.0, decode_output s.1)

abbrev trimmed : Text ⊎ Text → Text ⊎ Text
trimmed (inl e) = inl e
trimmed (inr out) = inr (trim_space out)

unfoldable pub run_power_shell_raw : Process → Log → Reply
unfolding run_power_shell
run_power_shell_raw r l = let s = run_power_shell r l in (s.0, trimmed s.1)

-- The message after the first of the markers that it contains.
abbrev past_markers : List Text → Text → Text
past_markers [] msg = msg
past_markers (m ∷ ms) msg =
    let rest = past_markers ms msg in
    elim (after m msg) [
      | none ↦ rest
      | some t ↦ trim_prefix (32 ∷ []) (trim_prefix (58 ∷ 32 ∷ []) (trim_space t))
    ]

-- No text stands for "unknown error (no details from PowerShell)".
abbrev pub known : Text → Option Text
known t = if blank t then none else some t

unfoldable pub extract_ps_error_detail : Text → List Text → Option Text
extract_ps_error_detail msg markers = known (
    trim_space (past_markers markers (trim_prefix execution_prefix (trim_prefix error_prefix msg))))

-- Of bytes: a space, a tabulator, a carriage return or a line feed.
abbrev is_blank_byte : ℕ → Bool
is_blank_byte b = nat_eq b 32 || nat_eq b 9 || nat_eq b 13 || nat_eq b 10

abbrev drop_blanks : List ℕ → List ℕ
drop_blanks [] = []
drop_blanks (b ∷ bs) = let rest = drop_blanks bs in if is_blank_byte b then rest else b ∷ bs

abbrev drop_last_blanks : List ℕ → List ℕ
drop_last_blanks [] = []
drop_last_blanks (b ∷ bs) =
    let rest = drop_last_blanks bs in if blank rest && is_blank_byte b then [] else b ∷ rest

unfoldable pub trim_power_shell_output : List ℕ → List ℕ
unfolding strip_prefix
trim_power_shell_output bs = drop_last_blanks (drop_blanks (trim_prefix (239 ∷ 187 ∷ 191 ∷ []) bs))
