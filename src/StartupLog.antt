-- ===== src/StartupLog.antt =====
-- internal/upgrade/upgrade.go: waitForStartupLog, checkLogForStartup and extractTimestamp. A log is a list of
-- bytes; the parsing of a time is a parameter, and a time is a number.
pub mod Confirms
use open_v_center_agent_hype.Base.{
  ℕ, zero, suc, ◌-◌, Bool, true, false, ◌&&◌, Option, none, some, List, [], ◌∷◌, if◌then◌else◌,
  nat_eq, ltb, any, length, Text,
}

-- "time":" with its quotes, and starting ovc-agent.
abbrev pub time_key : Text
time_key = 34 ∷ 116 ∷ 105 ∷ 109 ∷ 101 ∷ 34 ∷ 58 ∷ 34 ∷ []

abbrev pub startup_message : Text
startup_message =
    115 ∷ 116 ∷ 97 ∷ 114 ∷ 116 ∷ 105 ∷ 110 ∷ 103 ∷ 32 ∷ 111 ∷ 118 ∷ 99 ∷ 45 ∷ 97 ∷ 103 ∷ 101 ∷ 110
    ∷ 116 ∷ []

abbrev pub strip_prefix : Text → Text → Option Text
strip_prefix [] t = some t
strip_prefix (k ∷ ks) [] = none
strip_prefix (k ∷ ks) (c ∷ cs) = let rest = strip_prefix ks cs in if nat_eq k c then rest else none

abbrev or_later : Option Text → Option Text → Option Text
or_later none later = later
or_later (some t) later = some t

-- What follows the first occurrence of a text, as strings.Index finds it.
abbrev pub find_after : Text → Text → Option Text
find_after key [] = strip_prefix key []
find_after key (c ∷ cs) = or_later (strip_prefix key (c ∷ cs)) (find_after key cs)

abbrev cons_to : ℕ → Option Text → Option Text
cons_to c none = none
cons_to c (some t) = some (c ∷ t)

abbrev pub until_quote : Text → Option Text
until_quote [] = none
until_quote (c ∷ cs) =
    let rest = cons_to c (until_quote cs) in if nat_eq c 34 then some [] else rest

abbrev pub is_found : Option Text → Bool
is_found none = false
is_found (some t) = true

abbrev pub prepend_to : ℕ → List Text → List Text
prepend_to c [] = (c ∷ []) ∷ []
prepend_to c (l ∷ ls) = (c ∷ l) ∷ ls

-- The lines, as a scanner reads them.
abbrev pub lines_of : Text → List Text
lines_of [] = []
lines_of (c ∷ cs) = let rest = lines_of cs in if nat_eq c 10 then [] ∷ rest else prepend_to c rest

abbrev pub skip_bytes : ℕ → Text → Text
skip_bytes zero t = t
skip_bytes (suc n) [] = []
skip_bytes (suc n) (c ∷ cs) = skip_bytes n cs

-- The last 8192 bytes; the subtraction stops at 0.
abbrev pub tail_of : Text → Text
tail_of t = skip_bytes (length t - 8192) t

-- `parse` tries the two layouts, and is `none` for what is no time.
module _ (parse : Text → Option ℕ) where
  abbrev parsed : Option Text → Option ℕ
  parsed none = none
  parsed (some t) = parse t

  abbrev up_to_quote : Option Text → Option ℕ
  up_to_quote none = none
  up_to_quote (some rest) = parsed (until_quote rest)

  unfoldable pub extract_timestamp : Text → Option ℕ
  extract_timestamp line = up_to_quote (find_after time_key line)

  abbrev is_after : ℕ → Option ℕ → Bool
  is_after start none = false
  is_after start (some ts) = ltb start ts

  abbrev pub confirms_line : ℕ → Text → Bool
  confirms_line start line =
      is_found (find_after startup_message line) && is_after start (extract_timestamp line)

  -- The log, `none` where it cannot be read.
  unfoldable pub check_log_for_startup : ℕ → Option Text → Bool
  check_log_for_startup start none = false
  check_log_for_startup start (some log) = any (confirms_line start) (lines_of (tail_of log))

  -- The log as it is at each poll before the deadline.
  unfoldable pub wait_for_startup_log : ℕ → List (Option Text) → Bool
  wait_for_startup_log start [] = false
  wait_for_startup_log start (log ∷ logs) =
      let later = wait_for_startup_log start logs in
      if check_log_for_startup start log then true else later
