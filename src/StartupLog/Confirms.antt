-- ===== src/StartupLog/Confirms.antt =====
-- internal/upgrade/upgrade.go: which logs confirm that the new agent has started.
use open_v_center_agent_hype.Base.{
  ℕ, zero, suc, ◌+◌, ◌-◌, ◌≤◌, ◌<◌, ◌≡◌, ◌⊎◌, inl, inr, refl, Bool, true, not, ◌&&◌, Option, some,
  List, [], ◌∷◌, ◌++◌, nat_eq, any, length, Text, arith, Bool-cases,
}
use open_v_center_agent_hype.StartupLog.{
  time_key, startup_message, find_after, until_quote, is_found, lines_of, skip_bytes, tail_of,
  extract_timestamp, confirms_line, check_log_for_startup, wait_for_startup_log,
}

-- No line feed, and no quote.
abbrev pub one_line : Text → Bool
one_line [] = true
one_line (c ∷ cs) = not (nat_eq c 10) && one_line cs

abbrev pub no_quote : Text → Bool
no_quote [] = true
no_quote (c ∷ cs) = not (nat_eq c 34) && no_quote cs

-- A line of the log: its time, and the rest.
abbrev pub log_line : Text → Text → Text
log_line t rest = 123 ∷ (time_key ++ t ++ (34 ∷ rest))

until_quote-append : (t rest : Text) → no_quote t ≡ true → until_quote (t ++ (34 ∷ rest)) ≡ some t
until_quote-append [] rest h = refl
until_quote-append (c ∷ t) rest h =
    let tail = until_quote-append t rest (ground (arith, h)) in ground (arith, h, tail)

extract_timestamp-log_line :
    (parse : Text → Option ℕ) (t rest : Text)
    → no_quote t ≡ true
    → extract_timestamp parse (log_line t rest) ≡ parse t
unfolding extract_timestamp
extract_timestamp-log_line parse t rest h = rw (until_quote-append t rest h) refl

-- What stands before a line feed does not touch the lines after it.
lines_of-split :
    (a b : Text)
    → (x : Text) × (xs : List Text) × (lines_of (a ++ (10 ∷ b)) ≡ x ∷ (xs ++ lines_of b))
lines_of-split [] b = ([], [], refl)
lines_of-split (c ∷ a) b =
    let (x, xs, e) = lines_of-split a b in
    elim (Bool-cases (nat_eq c 10)) [
      | inl t ↦ ([], x ∷ xs, rw (t, e) refl)
      | inr f ↦ (c ∷ x, xs, rw (f, e) refl)
    ]

lines_of-line :
    (line more : Text)
    → one_line line ≡ true
    → lines_of (line ++ (10 ∷ more)) ≡ line ∷ lines_of more
lines_of-line [] more h = refl
lines_of-line (c ∷ line) more h =
    let tail = lines_of-line line more (ground (arith, h)) in ground (arith, h, tail)

skip_bytes-append :
    (n : ℕ) (a b : Text)
    → n ≤ length a + 1
    → ((a' : Text) × (skip_bytes n (a ++ (10 ∷ b)) ≡ a' ++ (10 ∷ b)))
      ⊎ (skip_bytes n (a ++ (10 ∷ b)) ≡ b)
skip_bytes-append zero a b h = inl (a, refl)
skip_bytes-append (suc zero) [] b h = inr refl
skip_bytes-append (suc (suc n)) [] b h = ground (arith, h)
skip_bytes-append (suc n) (c ∷ a) b h = skip_bytes-append n a b (omega arith)

length-append : (a b : Text) → length (a ++ b) ≡ length a + length b
length-append [] b = omega arith
length-append (c ∷ a) b = let tail = length-append a b in omega arith

any-append : (q : Text → Bool) (xs ys : List Text) → any q ys ≡ true → any q (xs ++ ys) ≡ true
any-append q [] ys h = h
any-append q (x ∷ xs) ys h = let tail = any-append q xs ys h in ground (arith, tail)

-- A line that passes a test is among the lines of the end of a log, wherever the end begins.
any-tail_of :
    (q : Text → Bool) (older line more : Text)
    → q line ≡ true
    → one_line line ≡ true
    → length (line ++ (10 ∷ more)) ≤ 8192
    → any q (lines_of (tail_of (older ++ (10 ∷ (line ++ (10 ∷ more)))))) ≡ true
any-tail_of q older line more h o l =
    let recent = line ++ (10 ∷ more) in
    let here : any q (lines_of recent) ≡ true =
      rw (lines_of-line line more o) (ground (arith, h)) in
    let size = length-append older (10 ∷ recent) in
    let cut : length (older ++ (10 ∷ recent)) - 8192 ≤ length older + 1 = omega arith in
    elim (skip_bytes-append (length (older ++ (10 ∷ recent)) - 8192) older recent cut) [
      | inl (older', e) ↦
          let (x, xs, split) = lines_of-split older' recent in
          rw (e, split) (any-append q (x ∷ xs) (lines_of recent) here)
      | inr e ↦ rw e here
    ]

module _ (parse : Text → Option ℕ) (start : ℕ) where
  polls :
      (before after : List (Option Text)) (log : Option Text)
      → check_log_for_startup parse start log ≡ true
      → wait_for_startup_log parse start (before ++ log ∷ after) ≡ true
  unfolding wait_for_startup_log
  polls [] after log h = ground (arith, h)
  polls (b ∷ before) after log h = let tail = polls before after log h in ground (arith, tail)

  line_confirms :
      (t rest : Text) (ts : ℕ)
      → no_quote t ≡ true
      → is_found (find_after startup_message (log_line t rest)) ≡ true
      → parse t ≡ some ts
      → start < ts
      → confirms_line parse start (log_line t rest) ≡ true
  line_confirms t rest ts q f p a =
      rw (extract_timestamp-log_line parse t rest q, p) (ground (arith, f, a))

  -- If at some poll the log ends, within its last 8192 bytes, with a line of the start whose time is after
  -- the beginning of the wait, and whatever is written after it, the wait confirms the new agent, whatever
  -- stands before that line and whatever the other polls read. It is these 8192 bytes that are read, and not
  -- the last 50 lines, of which a comment speaks.
  pub wait_for_startup_log-confirms :
      (before after : List (Option Text)) (older t rest more : Text) (ts : ℕ)
      → no_quote t ≡ true
      → one_line (log_line t rest) ≡ true
      → is_found (find_after startup_message (log_line t rest)) ≡ true
      → parse t ≡ some ts
      → start < ts
      → length (log_line t rest ++ (10 ∷ more)) ≤ 8192
      → wait_for_startup_log parse start
          (before ++ some (older ++ (10 ∷ (log_line t rest ++ (10 ∷ more)))) ∷ after)
        ≡ true
  unfolding check_log_for_startup
  wait_for_startup_log-confirms before after older t rest more ts q o f p a l =
      polls before after _ (
        any-tail_of (confirms_line parse start) older (log_line t rest) more
          (line_confirms t rest ts q f p a) o l)
