-- ===== src/Scripts.antt =====
-- How texts are put into scripts. internal/tasks/vm_create.go: escapePS; vm_management.go:
-- escapePSSingleQuoted, psStringArray.
pub mod Quoting
pub mod Arrays
use open_v_center_agent_hype.Base.{
  ℕ, Bool, true, false, ◌&&◌, ◌||◌, Option, none, some, List, [], ◌∷◌, ◌++◌, if◌then◌else◌, nat_eq,
  Text, blank, trim_space,
}

-- escapePS, of a code point: a quote, a line feed and a carriage return get a backtick.
abbrev pub escape_code : ℕ → Text
escape_code c =
    if nat_eq c 34
    then 96 ∷ 34 ∷ []
    else if nat_eq c 10
    then 96 ∷ 110 ∷ []
    else if nat_eq c 13
    then 96 ∷ 114 ∷ []
    else c ∷ []

unfoldable pub escape_ps : Text → Text
escape_ps [] = []
escape_ps (c ∷ cs) = escape_code c ++ escape_ps cs

-- A single quote is doubled.
unfoldable pub escape_ps_single_quoted : Text → Text
escape_ps_single_quoted [] = []
escape_ps_single_quoted (c ∷ cs) =
    let rest = escape_ps_single_quoted cs in if nat_eq c 39 then 39 ∷ 39 ∷ rest else c ∷ rest

abbrev pub quoted : Text → Text
quoted p = 39 ∷ (escape_ps_single_quoted p ++ (39 ∷ []))

-- strings.Join with a comma.
abbrev pub joined : List Text → Text
joined [] = []
joined (t ∷ []) = t
joined (t ∷ u ∷ ts) = t ++ (44 ∷ joined (u ∷ ts))

-- The paths that are not empty once trimmed.
abbrev pub kept : List Text → List Text
kept [] = []
kept (p ∷ ps) = let rest = kept ps in if blank (trim_space p) then rest else trim_space p ∷ rest

abbrev pub quoted_all : List Text → List Text
quoted_all [] = []
quoted_all (p ∷ ps) = quoted p ∷ quoted_all ps

-- "@(" and ")" around them.
unfoldable pub ps_string_array : List Text → Text
ps_string_array paths = 64 ∷ 40 ∷ (joined (quoted_all (kept paths)) ++ (41 ∷ []))
