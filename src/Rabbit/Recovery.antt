-- ===== src/Rabbit/Recovery.antt =====
-- connection.go: when the redialling ends, and with what.
use open_v_center_agent_hype.Base.{
  ℕ, zero, suc, if◌then◌else◌, ◌+◌, ◌*◌, ◌≤◌, ◌<◌, ◌≡◌, ◌≢◌, ◌⊎◌, Bool, true, false, some, arith,
  refl, sym, ap,
}
use open_v_center_agent_hype.Rabbit.{
  calculate_backoff, Connection, Dialled, unreachable, no_channel, connects, dial, Wake, elapsed,
  cancelled, closing, connected, unfinished, Retried, waiting, dial_with_retry, drop, recover,
}

module _ (dials : ℕ → Dialled) (wakes : ℕ → Wake) where
  -- A dial that connects, or a wait that is cut short.
  pub data Stops (n : ℕ) : Type 0 where
    answered : (c i : ℕ) → dials n ≡ connects c i → Stops n
    cancels : wakes n ≡ cancelled → Stops n
    closes : wakes n ≡ closing → Stops n

  -- An attempt that fails and is followed by its whole wait.
  pub record Fails (n : ℕ) : Type 0 where
    pub failed : (dials n ≡ unreachable) ⊎ ((c : ℕ) × (dials n ≡ no_channel c))
    pub waits : wakes n ≡ elapsed

  unfoldable pub total_backoff : ℕ → ℕ → ℕ
  total_backoff zero attempt = 0
  total_backoff (suc k) attempt = calculate_backoff (suc attempt) + total_backoff k (suc attempt)

  -- One round, from whether its dial succeeded and the rounds after it.
  abbrev round : ℕ → Connection × Bool → Retried → Retried
  round attempt r rest =
      if r.1
      then record { state = r.0; waited = 0; outcome = connected }
      else waiting (calculate_backoff (suc attempt)) r.0 (wakes attempt) rest

  round-settles :
      (attempt : ℕ) (r : Connection × Bool) (rest rest' : Retried)
      → rest.outcome ≢ unfinished
      → rest ≡ rest'
      → ((round attempt r rest).outcome ≢ unfinished)
        × (round attempt r rest ≡ round attempt r rest')
  round-settles attempt (s, true) rest rest' h e = ((ground arith), refl)
  round-settles attempt (s, false) rest rest' h e =
      (settles (wakes attempt), ap (round attempt (s, false)) e)
    where
      settles :
          (w : Wake) → (waiting (calculate_backoff (suc attempt)) s w rest).outcome ≢ unfinished
      settles elapsed = h
      settles cancelled = ground arith
      settles closing = ground arith

  Stops-settles :
      (attempt : ℕ) (s : Connection) (rest rest' : Retried)
      → Stops attempt
      → ((round attempt (dial (dials attempt) s) rest).outcome ≢ unfinished)
        × (round attempt (dial (dials attempt) s) rest
            ≡ round attempt (dial (dials attempt) s) rest')
  unfolding dial
  Stops-settles attempt s rest rest' (answered c i e) = ground arith
  Stops-settles attempt s rest rest' (cancels e) = ground arith
  Stops-settles attempt s rest rest' (closes e) = ground arith

  -- Once an attempt connects or its wait is cut short, the loop ends: one round for each attempt up to
  -- that one is enough, and more rounds change nothing.
  pub dial_with_retry-ends :
      (k attempt n fuel : ℕ) (s : Connection)
      → n ≡ attempt + k
      → k < fuel
      → Stops n
      → ((dial_with_retry dials wakes fuel attempt s).outcome ≢ unfinished)
        × (dial_with_retry dials wakes fuel attempt s
            ≡ dial_with_retry dials wakes (suc k) attempt s)
  unfolding dial_with_retry
  dial_with_retry-ends k attempt n zero s e l h = ground arith
  dial_with_retry-ends zero attempt n (suc fuel) s e l h =
      let same : n ≡ attempt = omega arith in
      Stops-settles attempt s
        (dial_with_retry dials wakes fuel (suc attempt) (dial (dials attempt) s).0)
        (dial_with_retry dials wakes zero (suc attempt) (dial (dials attempt) s).0)
        (rw (sym same) h)
  dial_with_retry-ends (suc k) attempt n (suc fuel) s e l h =
      let next = (dial (dials attempt) s).0 in
      let ih = dial_with_retry-ends k (suc attempt) n fuel next (omega arith) (omega arith) h in
      round-settles attempt (dial (dials attempt) s)
        (dial_with_retry dials wakes fuel (suc attempt) next) _ ih.0 ih.1

  -- A connection that is up, with its own channel and its own close notification.
  pub record IsConnected (c i : ℕ) (s : Connection) : Type 0 where
    pub is_current : s.conn ≡ some c
    pub has_channel : s.channel ≡ some (record { on = c; id = i })
    pub has_notice : s.conn_close ≡ some c
    pub is_up : s.up c ≡ true

  dial-IsConnected : (c i : ℕ) (s : Connection) → IsConnected c i (dial (connects c i) s).0
  unfolding dial
  dial-IsConnected c i s = ground arith

  -- A failed attempt waits and goes on.
  round-Fails :
      (attempt : ℕ) (s : Connection) (rest : Retried)
      → Fails attempt
      → round attempt (dial (dials attempt) s) rest
        ≡ record rest { waited = calculate_backoff (suc attempt) + rest.waited }
  unfolding dial
  round-Fails attempt s rest f = ground arith

  connects_now :
      (c i attempt : ℕ) (s : Connection) (rest : Retried)
      → dials attempt ≡ connects c i
      → ((round attempt (dial (dials attempt) s) rest).outcome ≡ connected)
        × ((round attempt (dial (dials attempt) s) rest).waited ≡ 0)
        × IsConnected c i (round attempt (dial (dials attempt) s) rest).state
  unfolding dial
  connects_now c i attempt s rest d = ground arith

  pub dial_with_retry-connects :
      (k attempt n fuel c i : ℕ) (s : Connection)
      → n ≡ attempt + k
      → k < fuel
      → ((j : ℕ) → attempt ≤ j → j < n → Fails j)
      → dials n ≡ connects c i
      → ((dial_with_retry dials wakes fuel attempt s).outcome ≡ connected)
        × ((dial_with_retry dials wakes fuel attempt s).waited ≡ total_backoff k attempt)
        × IsConnected c i (dial_with_retry dials wakes fuel attempt s).state
  unfolding dial_with_retry total_backoff
  dial_with_retry-connects k attempt n zero c i s e l h d = ground arith
  dial_with_retry-connects zero attempt n (suc fuel) c i s e l h d =
      let same : n ≡ attempt = omega arith in connects_now c i attempt s _ (rw (sym same) d)
  dial_with_retry-connects (suc k) attempt n (suc fuel) c i s e l h d =
      let next = (dial (dials attempt) s).0 in
      let ih =
        dial_with_retry-connects k (suc attempt) n fuel c i next (omega arith) (omega arith)
          (λ j a b. h j (omega arith) b) d in
      rw
        (round-Fails attempt s (dial_with_retry dials wakes fuel (suc attempt) next)
          (h attempt (omega arith) (omega arith)))
        (ih.0, ap (λ w. calculate_backoff (suc attempt) + w) ih.1, ih.2)

  -- The waits double from a second up to a minute.
  pub total_backoff-le : (k attempt : ℕ) → total_backoff k attempt ≤ 60 * k
  unfolding total_backoff calculate_backoff
  total_backoff-le zero attempt = omega arith
  total_backoff-le (suc k) attempt = ground (arith, total_backoff-le k (suc attempt))

  -- If the first n dials fail and each wait after them ends by itself, and the next dial connects, then a
  -- recovery of more than n rounds ends connected: the new connection is current and up, with its own
  -- channel and its own close notification, after the sum of the n backoffs, a minute each at most.
  pub recover-reconnects :
      (n fuel c i : ℕ) (s : Connection)
      → n < fuel
      → ((j : ℕ) → j < n → Fails j)
      → dials n ≡ connects c i
      → ((recover dials wakes fuel s).outcome ≡ connected)
        × IsConnected c i (recover dials wakes fuel s).state
        × ((recover dials wakes fuel s).waited ≡ total_backoff n 0)
        × ((recover dials wakes fuel s).waited ≤ 60 * n)
  unfolding recover
  recover-reconnects n fuel c i s l h d =
      let r = dial_with_retry-connects n 0 n fuel c i (drop s) (omega arith) l (λ j a b. h j b) d in
      (r.0, r.2, r.1, rw r.1 (total_backoff-le n 0))
