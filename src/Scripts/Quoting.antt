-- ===== src/Scripts/Quoting.antt =====
-- What PowerShell reads of the texts that escapePS and psStringArray write, by the rules of its strings.
use mathlib.Core.List.{append_assoc}
use open_v_center_agent_hype.Base.{
  ℕ, ◌≡◌, refl, Bool, true, not, ◌&&◌, ◌||◌, Option, none, some, [], ◌∷◌, ◌++◌, if◌then◌else◌,
  nat_eq, Text, arith, ap, leb, ◌∙◌,
}
use open_v_center_agent_hype.Scripts.{escape_ps, escape_code}

-- The string that was read, and what follows it.
abbrev prepend : ℕ → Option (Text × Text) → Option (Text × Text)
prepend c none = none
prepend c (some (s, rest)) = some (c ∷ s, rest)

-- What a code point after a backtick stands for.
abbrev unescape : ℕ → ℕ
unescape c = if nat_eq c 110 then 10 else if nat_eq c 114 then 13 else c

-- The quotes that PowerShell takes for a double quote, and for a single one.
abbrev is_double_quote : ℕ → Bool
is_double_quote c = nat_eq c 34 || (leb 8220 c && leb c 8222)

abbrev is_single_quote : ℕ → Bool
is_single_quote c = nat_eq c 39 || (leb 8216 c && leb c 8219)

-- Where the reader of a string stands: in it, after a backtick, or after a quote.
pub data Place : Type 0 where
  inside escaped at_quote : Place

-- A string in double quotes, after its opening quote: a backtick escapes what follows it, what a dollar
-- starts is not a text, and a quote that is doubled is a quote.
unfoldable pub read_double_quoted : Place → Text → Option (Text × Text)
read_double_quoted inside [] = none
read_double_quoted inside (c ∷ cs) =
    let later = read_double_quoted escaped cs in
    let close = read_double_quoted at_quote cs in
    let next = read_double_quoted inside cs in
    if nat_eq c 96
    then later
    else if nat_eq c 36
    then none
    else if is_double_quote c
    then close
    else prepend c next
read_double_quoted escaped [] = none
read_double_quoted escaped (c ∷ cs) = prepend (unescape c) (read_double_quoted inside cs)
read_double_quoted at_quote [] = some ([], [])
read_double_quoted at_quote (c ∷ cs) =
    let next = read_double_quoted inside cs in
    if is_double_quote c then prepend c next else some ([], c ∷ cs)

-- Neither a dollar nor a backtick, and no quote but the plain one.
abbrev pub is_plain : Text → Bool
is_plain [] = true
is_plain (c ∷ cs) =
    not (nat_eq c 36)
    && not (nat_eq c 96)
    && (nat_eq c 34 || not (is_double_quote c))
    && is_plain cs

-- What follows a string does not start with a quote.
abbrev pub ends_double_quoted : Text → Bool
ends_double_quoted [] = true
ends_double_quoted (c ∷ cs) = not (is_double_quote c)

closes :
    (rest : Text)
    → ends_double_quoted rest ≡ true
    → read_double_quoted inside (34 ∷ rest) ≡ some ([], rest)
unfolding read_double_quoted
closes [] h = refl
closes (c ∷ cs) h = ground (arith, h)

step_plain :
    (c : ℕ) (s t : Text)
    → not (nat_eq c 36) && not (nat_eq c 96) && (nat_eq c 34 || not (is_double_quote c)) ≡ true
    → read_double_quoted inside (escape_code c ++ t) ≡ prepend c (read_double_quoted inside t)
unfolding read_double_quoted
step_plain c s t h = ground (arith, h)

-- A text without a dollar, a backtick or a typographic quote, escaped and put between double quotes in a
-- script, is read back as it was, and the script goes on after the closing quote, if what follows does
-- not start with a quote.
pub read_double_quoted-escape_ps :
    (s rest : Text)
    → is_plain s ≡ true
    → ends_double_quoted rest ≡ true
    → read_double_quoted inside (escape_ps s ++ (34 ∷ rest)) ≡ some (s, rest)
unfolding escape_ps
read_double_quoted-escape_ps [] rest h e = closes rest e
read_double_quoted-escape_ps (c ∷ s) rest h e =
    let tail = read_double_quoted-escape_ps s rest (ground (arith, h)) e in
    rw (append_assoc (escape_code c) (escape_ps s) (34 ∷ rest))
      (step_plain c s (escape_ps s ++ (34 ∷ rest)) (ground (arith, h)) ∙ ap (prepend c) tail)
