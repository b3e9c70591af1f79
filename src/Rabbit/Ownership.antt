-- ===== src/Rabbit/Ownership.antt =====
-- connection.go: which connections are open, under any order of the supervisor, Close and the broker.
use open_v_center_agent_hype.Base.{
  not, if_elim, suc, ℕ, ◌≡◌, Bool, true, false, Option, none, some, arith, zero,
}
use open_v_center_agent_hype.Rabbit.{
  waiting, ticks, supervise, recover, dial_with_retry, healthy, Woken, Retried, Wake, Connection,
  Channel, Dialled, unreachable, no_channel, connects, dial, drop, reopen_channel, close, shut,
  healthy_on, channel_closed, elapsed, cancelled, closing, told_to_close, notified,
}

-- One atomic step on the connection, by whoever makes it; `loses` is the broker's.
pub data Step (s : Connection) : Connection → Type 0 where
  dials_once : (d : Dialled) → Step s (dial d s).0
  drops : Step s (drop s)
  reopens : (answer : Option ℕ) (old : ℕ) → Step s (reopen_channel answer old s).0
  closes : Step s (close s)
  loses : (n : ℕ) → Step s (record s { up = shut (some n) s.up })

-- The new connection manager.
abbrev pub new_connection : Connection
new_connection = record { conn = none; channel = none; conn_close = none; up = λ n. false }

pub data Reach : Connection → Type 0 where
  starts : Reach new_connection
  goes : {s t : Connection} → Reach s → Step s t → Reach t

-- The channel and the notification are the connection's, and no other connection is up.
pub record IsOwned (s : Connection) : Type 0 where
  pub own_channel : (c : Channel) → s.channel ≡ some c → s.conn ≡ some c.on
  pub own_notice : s.conn_close ≡ s.conn
  pub alone : (n : ℕ) → s.up n ≡ true → s.conn ≡ some n

Step-IsOwned : {s t : Connection} → IsOwned s → Step s t → IsOwned t
unfolding dial drop reopen_channel close
Step-IsOwned h (dials_once unreachable) = h
Step-IsOwned h (dials_once (no_channel n)) = ground arith
Step-IsOwned h (dials_once (connects n c)) = ground arith
Step-IsOwned h drops = ground arith
Step-IsOwned h (reopens none old) = ground arith
Step-IsOwned h (reopens (some c) old) = ground arith
Step-IsOwned h closes = ground arith
Step-IsOwned h (loses n) = ground arith

Reach-IsOwned : {s : Connection} → Reach s → IsOwned s
Reach-IsOwned starts = ground arith
Reach-IsOwned (goes r t) = Step-IsOwned (Reach-IsOwned r) t

module _ (dials : ℕ → Dialled) (wakes : ℕ → Wake) where
  waiting-Reach :
      (backoff : ℕ) (s : Connection) (w : Wake) (rest : Retried)
      → Reach s
      → Reach rest.state
      → Reach (waiting backoff s w rest).state
  waiting-Reach backoff s elapsed rest h k = k
  waiting-Reach backoff s cancelled rest h k = h
  waiting-Reach backoff s closing rest h k = h

  dial_with_retry-Reach :
      (fuel attempt : ℕ) (s : Connection)
      → Reach s
      → Reach (dial_with_retry dials wakes fuel attempt s).state
  unfolding dial_with_retry
  dial_with_retry-Reach zero attempt s h = h
  dial_with_retry-Reach (suc fuel) attempt s h =
      let next = goes h (dials_once (dials attempt)) in
      if_elim (λ (r : Retried). Reach r.state) (dial (dials attempt) s).1 (λ e. next)
        (λ e.
          waiting-Reach _ _ (wakes attempt) _ next
            (dial_with_retry-Reach fuel (suc attempt) _ next))

  recover-Reach : (fuel : ℕ) (s : Connection) → Reach s → Reach (recover dials wakes fuel s).state
  unfolding recover
  recover-Reach fuel s h = dial_with_retry-Reach fuel 0 (drop s) (goes h drops)

  healthy-Reach :
      (dead : Channel → Bool) (answer : Option ℕ) (s : Connection)
      → Reach s
      → Reach (healthy dead answer s).0
  unfolding healthy
  healthy-Reach dead answer s h = on s.conn
    where
      on : (conn : Option ℕ) → Reach (healthy_on dead answer s conn).0
      on none = h
      on (some n) =
          if_elim (λ (r : Connection × Bool). Reach r.0) (not (s.up n)) (λ e. h)
            (λ e.
              if_elim (λ (r : Connection × Bool). Reach r.0) (channel_closed dead s.channel)
                (λ e. goes h (reopens answer n)) (λ e. h))

  supervise-Reach :
      (fuel : ℕ) (woken : Woken) (s : Connection)
      → Reach s
      → Reach (supervise dials wakes fuel woken s).0
  unfolding supervise
  supervise-Reach fuel told_to_close s h = h
  supervise-Reach fuel notified s h = recover-Reach fuel s h
  supervise-Reach fuel (ticks dead answer) s h =
      let k = healthy-Reach dead answer s h in
      if_elim (λ (r : Connection × Bool). Reach r.0) (healthy dead answer s).1 (λ e. k)
        (λ e. recover-Reach fuel _ k)

  -- However dials, drops, reopened channels, Close and losses of connections have followed each other
  -- since the manager was made, before and after a turn of the supervisor the shared channel and the close
  -- notification are the current connection's, and no other connection is up.
  pub supervise-IsOwned :
      (fuel : ℕ) (woken : Woken) (s : Connection)
      → Reach s
      → IsOwned s × IsOwned (supervise dials wakes fuel woken s).0
  supervise-IsOwned fuel woken s h =
      (Reach-IsOwned h, Reach-IsOwned (supervise-Reach fuel woken s h))
