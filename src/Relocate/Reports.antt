-- ===== src/Relocate/Reports.antt =====
-- internal/tasks/vm_management.go: the percentages that a streaming handler reports.
use open_v_center_agent_hype.Base.{
  ℕ, ◌≤◌, ◌≡◌, Bool, true, ◌&&◌, List, [], ◌∷◌, ◌++◌, arith, ltb, leb,
}
use open_v_center_agent_hype.Relocate.{Line, percent, other_line, stream_reports}

-- Each number is above the one before it, the first above `low`, and none is above `high`.
unfoldable pub ascends : ℕ → ℕ → List ℕ → Bool
ascends high low [] = true
ascends high low (n ∷ ns) = ltb low n && leb n high && ascends high n ns

-- The percentages of the lines are at most 100.
abbrev pub are_percentages : List Line → Bool
are_percentages [] = true
are_percentages (percent n ∷ ls) = leb n 100 && are_percentages ls
are_percentages (other_line ∷ ls) = are_percentages ls

ascends_from :
    (high low low' : ℕ) (ns : List ℕ)
    → low' ≤ low
    → ascends high low ns ≡ true
    → ascends high low' ns ≡ true
unfolding ascends
ascends_from high low low' [] l h = ground arith
ascends_from high low low' (n ∷ ns) l h = ground arith

-- What is streamed ascends, and what is reported after it still does.
pub stream_reports-ascends :
    (scale : ℕ → ℕ) (high top last : ℕ) (ls : List Line) (rest : List ℕ)
    → ((n : ℕ) → n ≤ 100 → scale n ≤ top)
    → are_percentages ls ≡ true
    → last ≤ top
    → top ≤ high
    → ascends high top rest ≡ true
    → ascends high last (stream_reports scale last ls ++ rest) ≡ true
unfolding ascends stream_reports
stream_reports-ascends scale high top last [] rest m l t u h = ascends_from high top last rest t h
stream_reports-ascends scale high top last (other_line ∷ ls) rest m l t u h =
    stream_reports-ascends scale high top last ls rest m l t u h
stream_reports-ascends scale high top last (percent n ∷ ls) rest m l t u h =
    let below = m n (ground arith) in
    let silent = stream_reports-ascends scale high top last ls rest m (ground arith) t u h in
    let reported =
      stream_reports-ascends scale high top (scale n) ls rest m (ground arith) below u h in
    ground (arith, below, silent, reported)
