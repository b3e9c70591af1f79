-- ===== src/Edit/Passing.antt =====
-- internal/tasks/vm_edit.go: which steps pass, and what steps that make changes run and apply.
use open_v_center_agent_hype.Edit.Requests.{Does, nothing, refused, checked, changed, scripts}
use open_v_center_agent_hype.Base.{
  ◌≡◌, refl, ap, Bool, true, false, not, ◌&&◌, Option, none, some, List, [], ◌∷◌, ◌++◌, if_elim,
  arith, ℕ, suc, All, any, ◌∙◌,
}
use open_v_center_agent_hype.Edit.{
  Command, EditError, Step, refuse, run, try, applies, script_failed,
}
use open_v_center_agent_hype.Edit.Run.{Edited, run_steps}

-- A step passes, after a number of scripts.
abbrev pub passes : (ℕ → Command → Bool) → ℕ → Step → Bool
passes works n (refuse e) = false
passes works n (run c) = works n c
passes works n (try c) = true
passes works n (applies c) = true

-- The number of scripts after a step.
abbrev pub next : ℕ → Step → ℕ
next n (run c) = suc n
next n (try c) = suc n
next n (refuse e) = n
next n (applies c) = n

abbrev pub after_all : ℕ → List Step → ℕ
after_all n [] = n
after_all n (s ∷ ss) = after_all (next n s) ss

abbrev pub all_pass : (ℕ → Command → Bool) → ℕ → List Step → Bool
all_pass works n [] = true
all_pass works n (s ∷ ss) = passes works n s && all_pass works (next n s) ss

-- The commands of steps, and what they apply.
abbrev pub commands_of : List Step → List Command
commands_of [] = []
commands_of (refuse e ∷ ss) = commands_of ss
commands_of (run c ∷ ss) = c ∷ commands_of ss
commands_of (try c ∷ ss) = c ∷ commands_of ss
commands_of (applies c ∷ ss) = commands_of ss

abbrev pub changes_of : List Step → List Command
changes_of [] = []
changes_of (refuse e ∷ ss) = changes_of ss
changes_of (run c ∷ ss) = changes_of ss
changes_of (try c ∷ ss) = changes_of ss
changes_of (applies c ∷ ss) = c ∷ changes_of ss

-- The error of a step that does not pass.
abbrev pub error_of : Step → Option EditError
error_of (refuse e) = some e
error_of (run c) = some (script_failed c)
error_of (try c) = none
error_of (applies c) = none

-- The script of a command worked, after some number of others.
abbrev pub Worked : (ℕ → Command → Bool) → Command → Type 0
Worked works c = (n : ℕ) × (works n c ≡ true)

-- What steps that make changes run and apply.
module _ (works : ℕ → Command → Bool) (q : Command → Bool) where
  abbrev pub Sound : Edited → Type 0
  Sound e = All (Worked works) e.applied × (any (λ c. not (q c)) e.commands ≡ false)

  after_scripts :
      (mid ss : List Step)
      → scripts q mid ≡ true
      → ((k : ℕ) → Sound (run_steps works k ss))
      → (n : ℕ) → Sound (run_steps works n (mid ++ ss))
  unfolding run_steps
  after_scripts [] ss k h n = h n
  after_scripts (run c ∷ mid) ss k h n =
      let rest = after_scripts mid ss (ground (arith, k)) h (suc n) in
      if_elim Sound (works n c) (λ t. (rest.0, ground (arith, k, rest.1)))
        (λ t. (tt, ground (arith, k)))
  after_scripts (try c ∷ mid) ss k h n =
      let rest = after_scripts mid ss (ground (arith, k)) h (suc n) in
      (rest.0, ground (arith, k, rest.1))
  after_scripts (refuse e ∷ mid) ss k h n = ground (arith, k)
  after_scripts (applies c ∷ mid) ss k h n = ground (arith, k)

  then_applies :
      (c : Command) (ss : List Step)
      → Worked works c
      → ((k : ℕ) → Sound (run_steps works k ss))
      → (n : ℕ) → Sound (run_steps works n (applies c ∷ ss))
  unfolding run_steps
  then_applies c ss w h n = ((w, (h n).0), (h n).1)

  pub Does-Sound :
      {ss : List Step} {cs : List Command} → Does q ss cs → (n : ℕ) → Sound (run_steps works n ss)
  unfolding run_steps
  Does-Sound nothing n = (tt, refl)
  Does-Sound (refused e ss cs) n = (tt, refl)
  Does-Sound (checked c {ss = ss} t d) n =
      let rest = Does-Sound d (suc n) in
      if_elim Sound (works n c) (λ u. (rest.0, ground (arith, t, rest.1)))
        (λ u. (tt, ground (arith, t)))
  Does-Sound (changed c mid {ss = ss} t k d) n =
      if_elim Sound (works n c)
        (λ u.
          let rest =
            after_scripts mid (applies c ∷ ss) k (then_applies c ss (n, u) (Does-Sound d))
              (suc n) in
          (rest.0, ground (arith, t, rest.1)))
        (λ u. (tt, ground (arith, t)))

  pass_mid :
      (mid ss : List Step) (n : ℕ)
      → scripts q mid ≡ true
      → all_pass works n (mid ++ ss) ≡ true
      → (changes_of (mid ++ ss) ≡ changes_of ss) × ((k : ℕ) × (all_pass works k ss ≡ true))
  pass_mid [] ss n k h = (refl, (n, h))
  pass_mid (run c ∷ mid) ss n k h = pass_mid mid ss (suc n) (ground (arith, k)) (ground (arith, h))
  pass_mid (try c ∷ mid) ss n k h = pass_mid mid ss (suc n) (ground (arith, k)) h
  pass_mid (refuse e ∷ mid) ss n k h = ground (arith, k)
  pass_mid (applies c ∷ mid) ss n k h = ground (arith, k)

  pub Does-changes :
      {ss : List Step} {cs : List Command}
      → Does q ss cs
      → (n : ℕ) → all_pass works n ss ≡ true
      → changes_of ss ≡ cs
  Does-changes nothing n h = refl
  Does-changes (refused e ss cs) n h = ground (arith, h)
  Does-changes (checked c t d) n h = Does-changes d (suc n) (ground (arith, h))
  Does-changes (changed c mid {ss = ss} t k d) n h =
      let (same, (m, rest)) = pass_mid mid (applies c ∷ ss) (suc n) k (ground (arith, h)) in
      same ∙ ap (λ l. c ∷ l) (Does-changes d m rest)
