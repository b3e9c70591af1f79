-- ===== src/Rabbit.antt =====
-- internal/rabbitmq: the connection and its recovery (connection.go), the publisher that waits for
-- a confirmation (publisher.go) and the consumer (consumer.go). The AMQP library answers through
-- arguments; it names connections and channels by numbers. Times are seconds.
pub mod Recovery
pub mod Ownership
pub mod Publisher
pub mod Consumer
use open_v_center_agent_hype.Base.{
  ℕ, zero, suc, ◌+◌, ◌-◌, ◌^◌, String, Bool, true, false, not, ◌&&◌, ◌||◌, Option, none, some, List,
  [], ◌∷◌, ltb, nat_eq, if◌then◌else◌,
}

-- math.Pow is exact or too large here, so the float arithmetic of the source changes nothing.
unfoldable pub calculate_backoff : ℕ → ℕ
calculate_backoff attempt =
    let backoff = 2 ^ (attempt - 1) in if ltb 60 backoff then 60 else backoff

pub record Channel : Type 0 where
  pub on : ℕ
  pub id : ℕ

-- `up` are the connections that the agent opened and neither side has closed.
pub record Connection : Type 0 where
  pub conn : Option ℕ
  pub channel : Option Channel
  pub conn_close : Option ℕ
  pub up : ℕ → Bool

-- What the library answers to one dial.
pub data Dialled : Type 0 where
  unreachable : Dialled
  no_channel : ℕ → Dialled
  connects : ℕ → ℕ → Dialled

abbrev pub opened : ℕ → (ℕ → Bool) → ℕ → Bool
opened n up m = nat_eq m n || up m

abbrev pub shut : Option ℕ → (ℕ → Bool) → ℕ → Bool
shut none up m = up m
shut (some n) up m = not (nat_eq m n) && up m

-- The new state, and whether the dial succeeded.
unfoldable pub dial : Dialled → Connection → Connection × Bool
dial unreachable s = (s, false)
dial (no_channel n) s = (record s { up = shut (some n) (opened n s.up) }, false)
dial (connects n c) s = (
  record {
    conn = some n;
    channel = some (record { on = n; id = c });
    conn_close = some n;
    up = opened n (shut s.conn s.up);
  },
  true,
)

-- How the wait after a failed dial ends.
pub data Wake : Type 0 where
  elapsed cancelled closing : Wake

pub data Outcome : Type 0 where
  connected interrupted unfinished : Outcome

pub record Retried : Type 0 where
  pub state : Connection
  pub waited : ℕ
  pub outcome : Outcome

abbrev pub waiting : ℕ → Connection → Wake → Retried → Retried
waiting backoff s elapsed rest = record rest { waited = backoff + rest.waited }
waiting backoff s cancelled rest = record { state = s; waited = 0; outcome = interrupted }
waiting backoff s closing rest = record { state = s; waited = 0; outcome = interrupted }

-- The loop from an attempt on, for so many rounds; `dials` and `wakes` answer by the attempt.
unfoldable pub dial_with_retry : (ℕ → Dialled) → (ℕ → Wake) → ℕ → ℕ → Connection → Retried
dial_with_retry dials wakes zero attempt s = record { state = s; waited = 0; outcome = unfinished }
dial_with_retry dials wakes (suc fuel) attempt s =
    let r = dial (dials attempt) s in
    let rest = dial_with_retry dials wakes fuel (suc attempt) r.0 in
    if r.1
    then record { state = r.0; waited = 0; outcome = connected }
    else waiting (calculate_backoff (suc attempt)) r.0 (wakes attempt) rest

-- The dead connection is dropped first.
unfoldable pub drop : Connection → Connection
drop s = record { conn = none; channel = none; conn_close = none; up = shut s.conn s.up }

unfoldable pub recover : (ℕ → Dialled) → (ℕ → Wake) → ℕ → Connection → Retried
recover dials wakes fuel s = dial_with_retry dials wakes fuel 0 (drop s)

-- The shared channel is replaced unless another connection has taken the place of `old`.
unfoldable pub reopen_channel : Option ℕ → ℕ → Connection → Connection × Bool
reopen_channel none old s = (s, false)
reopen_channel (some c) old s = elim s.conn [
  | none ↦ (s, true)
  | some now ↦
      if nat_eq now old
      then (record s { channel = some (record { on = old; id = c }) }, true)
      else (s, true)
]

abbrev pub channel_closed : (Channel → Bool) → Option Channel → Bool
channel_closed dead none = true
channel_closed dead (some c) = dead c

abbrev pub healthy_on : (Channel → Bool) → Option ℕ → Connection → Option ℕ → Connection × Bool
healthy_on dead new_channel s none = (s, false)
healthy_on dead new_channel s (some n) =
    if not (s.up n)
    then (s, false)
    else if channel_closed dead s.channel
    then reopen_channel new_channel n s
    else (s, true)

-- `dead` says which channels are closed; `new_channel` is what opening one gives.
unfoldable pub healthy : (Channel → Bool) → Option ℕ → Connection → Connection × Bool
unfolding reopen_channel
healthy dead new_channel s = healthy_on dead new_channel s s.conn

-- What wakes the supervisor.
pub data Woken : Type 0 where
  told_to_close notified : Woken
  ticks : (Channel → Bool) → Option ℕ → Woken

-- One turn of the supervisor's loop, and whether it goes on.
unfoldable pub supervise : (ℕ → Dialled) → (ℕ → Wake) → ℕ → Woken → Connection → Connection × Bool
supervise dials wakes fuel told_to_close s = (s, false)
supervise dials wakes fuel notified s =
    let r = recover dials wakes fuel s in (r.state, elim r.outcome [ connected ↦ true | _ ↦ false ])
supervise dials wakes fuel (ticks dead new_channel) s =
    let h = healthy dead new_channel s in
    let r = recover dials wakes fuel h.0 in
    if h.1 then (h.0, true) else (r.state, elim r.outcome [ connected ↦ true | _ ↦ false ])

-- Close, of the connection; the fields stay.
unfoldable pub close : Connection → Connection
close s = record s { up = shut s.conn s.up }

-- Channel: the current channel, if it is usable.
unfoldable pub current_channel : (Channel → Bool) → Connection → Option Channel
current_channel dead s = if channel_closed dead s.channel then none else s.channel

-- NewChannel: a channel on the current connection, named by `c` where the library opens one.
unfoldable pub new_channel : Option ℕ → Connection → Option Channel
new_channel none s = none
new_channel (some c) s = elim s.conn [
  | none ↦ none
  | some n ↦ if s.up n then some (record { on = n; id = c }) else none
]
