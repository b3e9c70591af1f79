-- ===== src/PowerShell/Details.antt =====
-- internal/hyperv/powershell.go: what is logged, and what extractPSErrorDetail reads of a failure.
use open_v_center_agent_hype.Base.{
  ℕ, zero, ◌≡◌, refl, some, [], ◌∷◌, ◌++◌, Text, trim_space, arith, ◌≤◌, length, ap, suc, Bool,
  true, false, not, ◌&&◌, Option, none, String, inl, blank, length-append, ◌+◌, if◌then◌else◌, ◌∙◌,
}
use open_v_center_agent_hype.PowerShell.{
  strip_prefix, trim_prefix, or_text, error_prefix, execution_prefix, take, extract_ps_error_detail,
  known, truncate, truncated_mark, ErrorEntry, Log, log_ps_error, Process, end_run, run_power_shell,
  is_controlled_error, report_failure, log_ps_debug, quiet,
}

strip_prefix-append : (p t : Text) → strip_prefix p (p ++ t) ≡ some t
unfolding strip_prefix
strip_prefix-append [] t = refl
strip_prefix-append (c ∷ p) t = ground (arith, strip_prefix-append p t)

-- The detail of a failure whose process wrote to its standard error is what it wrote, trimmed, less a
-- prefix of the runner's.
extract_ps_error_detail-stderr :
    (t : Text)
    → extract_ps_error_detail (error_prefix ++ t) []
      ≡ known (trim_space (trim_prefix execution_prefix t))
unfolding extract_ps_error_detail
extract_ps_error_detail-stderr t =
    ap (λ o. known (trim_space (trim_prefix execution_prefix (or_text o (error_prefix ++ t)))))
      (strip_prefix-append error_prefix t)

length-take_le : (n : ℕ) (t : Text) → length (take n t) ≤ n
length-take_le zero t = omega arith
length-take_le (suc n) [] = omega arith
length-take_le (suc n) (c ∷ t) = omega (arith, length-take_le n t)

-- A text is cut to its limit and a mark of fourteen code points.
length-truncate_le : (s : Text) (n : ℕ) → length (truncate s n) ≤ n + 14
unfolding truncate
length-truncate_le s n = ground (arith, length-append (take n s) truncated_mark, length-take_le n s)

-- A failure is logged, but for those whose script says that it refused; a failure by the context always.
abbrev is_logged : Option Text → Option Text → Bool → Bool
is_logged none c controlled = false
is_logged (some e) none controlled = not controlled
is_logged (some e) (some c) controlled = true

abbrev count : Bool → ℕ
count true = 1
count false = 0

errors_of :
    (l : Log) (e : ErrorEntry)
    → length (log_ps_error e l).errors ≡ count l.has_errors + length l.errors
errors_of l e = ground arith

log_ps_debug-errors : (l : Log) → (log_ps_debug l).errors ≡ l.errors
log_ps_debug-errors l = ground arith

log_ps_debug-has_errors : (l : Log) → (log_ps_debug l).has_errors ≡ l.has_errors
log_ps_debug-has_errors l = ground arith

report_failure-errors :
    (runner : String) (e : Text) (c : Option Text) (r : Process) (l : Log)
    → length (report_failure runner e c r l).0.errors
      ≡ count (l.has_errors && is_logged (some e) c (is_controlled_error (trim_space r.stderr)))
        + length l.errors
report_failure-errors runner e (some c) r l = ground arith
report_failure-errors runner e none r l = ground arith

end_run-errors :
    (runner : String) (e : Option Text) (r : Process) (l : Log)
    → length (end_run runner e r l).0.errors
      ≡ count (l.has_errors && is_logged e r.cancelled (is_controlled_error (trim_space r.stderr)))
        + length l.errors
end_run-errors runner none r l = ground (arith, log_ps_debug-errors l)
end_run-errors runner (some e) r l = ground (
  arith,
  report_failure-errors runner e r.cancelled r (log_ps_debug l),
  log_ps_debug-errors l,
  log_ps_debug-has_errors l,
)

run_power_shell-errors :
    (r : Process) (l : Log)
    → length (run_power_shell r l).0.errors
      ≡ count (
          l.has_errors && is_logged r.error r.cancelled (is_controlled_error (trim_space r.stderr)))
        + length l.errors
unfolding run_power_shell
run_power_shell-errors r l = end_run-errors "RunPowerShell" r.error r l

-- A run that fails by itself, with something on its standard error.
record FailsAloud (r : Process) : Type 0 where
  pub message : Text
  pub fails : r.error ≡ some message
  pub goes_on : r.cancelled ≡ none
  pub is_aloud : blank (trim_space r.stderr) ≡ false

run_power_shell-FailsAloud :
    (r : Process) (l : Log)
    → FailsAloud r
    → (run_power_shell r l).1 ≡ inl (error_prefix ++ trim_space r.stderr)
unfolding run_power_shell
run_power_shell-FailsAloud r l h =
    ap (λ o. (end_run "RunPowerShell" o r l).1) h.fails
    ∙ ap (λ c. (report_failure "RunPowerShell" h.message c r (log_ps_debug l)).1) h.goes_on
    ∙ ap (λ b. inl (if not b then error_prefix ++ trim_space r.stderr else quiet h.message r))
        h.is_aloud

-- The detail of such a run is what the process wrote, less a prefix of the runner's.
run_power_shell-detail :
    (r : Process) (l : Log)
    → FailsAloud r
    → (msg : Text) × ((run_power_shell r l).1 ≡ inl msg)
      × (extract_ps_error_detail msg []
          ≡ known (trim_space (trim_prefix execution_prefix (trim_space r.stderr))))
run_power_shell-detail r l h = (
  error_prefix ++ trim_space r.stderr,
  run_power_shell-FailsAloud r l h,
  extract_ps_error_detail-stderr (trim_space r.stderr),
)
