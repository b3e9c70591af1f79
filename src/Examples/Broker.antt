-- ===== src/Examples/Broker.antt =====
-- A broker that is away twice, and the messages sent to it.
use open_v_center_agent_hype.Base.{
  ℕ, zero, suc, ◌≡◌, ◌≢◌, ◌≤◌, ◌<◌, ◌*◌, ◌↔◌, inl, inr, refl, true, false, none, some, [], ◌∷◌, All,
  arith,
}
use open_v_center_agent_hype.Rabbit.{
  Connection, Dialled, unreachable, no_channel, connects, Wake, elapsed, closing, unfinished,
  connected, dial_with_retry, recover, supervise, notified,
}
use open_v_center_agent_hype.Rabbit.Recovery.{
  Fails, closes, IsConnected, total_backoff, dial_with_retry-ends, recover-reconnects,
}
use open_v_center_agent_hype.Rabbit.Ownership.{starts, new_connection, IsOwned, supervise-IsOwned}
use open_v_center_agent_hype.Rabbit.Publisher.{
  Sending, answered, nothing, publish_confirmed, IsDelivered, publish_confirmed-iff-IsDelivered,
}
use open_v_center_agent_hype.Rabbit.Consumer.{
  Round, delivers, ends, run, run-heard, Hears, hears, misses, not_opened, closed_off,
  nothing as nothing_more,
}

-- The third dial connects.
abbrev dials : ℕ → Dialled
dials zero = unreachable
dials (suc zero) = no_channel 6
dials (suc (suc n)) = connects 7 1

abbrev wakes : ℕ → Wake
wakes n = elapsed

dials-Fails : (j : ℕ) → j < 2 → Fails dials wakes j
dials-Fails zero h = record { failed = inl refl; waits = refl }
dials-Fails (suc zero) h = record { failed = inr (6, refl); waits = refl }
dials-Fails (suc (suc j)) h = ground arith

recover-reconnects_example :
    ((recover dials wakes 3 new_connection).outcome ≡ connected)
    × IsConnected dials wakes 7 1 (recover dials wakes 3 new_connection).state
    × ((recover dials wakes 3 new_connection).waited ≡ total_backoff dials wakes 2 0)
    × ((recover dials wakes 3 new_connection).waited ≤ 60 * 2)
recover-reconnects_example =
    recover-reconnects dials wakes 2 3 7 1 new_connection (omega arith) dials-Fails refl

-- The agent is closed in its second wait.
abbrev away : ℕ → Dialled
away n = unreachable

abbrev closed_early : ℕ → Wake
closed_early zero = elapsed
closed_early (suc n) = closing

dial_with_retry-ends_example :
    ((dial_with_retry away closed_early 9 0 new_connection).outcome ≢ unfinished)
    × (dial_with_retry away closed_early 9 0 new_connection
        ≡ dial_with_retry away closed_early 2 0 new_connection)
dial_with_retry-ends_example =
    dial_with_retry-ends away closed_early 1 0 1 9 new_connection (omega arith) (omega arith)
      (closes refl)

supervise-IsOwned_example :
    IsOwned new_connection × IsOwned (supervise dials wakes 3 notified new_connection).0
supervise-IsOwned_example = supervise-IsOwned dials wakes 3 notified new_connection starts

abbrev up : Connection
up = record {
  conn = some 7;
  channel = some (record { on = 7; id = 1 });
  conn_close = some 7;
  up = λ n. true;
}

abbrev message : Sending
message = record {
  body = some "{}";
  opens = some 2;
  confirm_mode = true;
  publishes = true;
  confirm = answered true;
  landed = nothing;
}

publish_confirmed-iff-IsDelivered_example :
    ((publish_confirmed message up).error ≡ none) ↔ IsDelivered message up
publish_confirmed-iff-IsDelivered_example = publish_confirmed-iff-IsDelivered message up

-- A subscription that fails, and one that delivers.
abbrev away_round : Round ℕ
away_round = record {
  conn = new_connection;
  answers = record { opens = none; sets_qos = true; declares = true; consumes = true };
  events = [];
  cut = false;
}

abbrev round : Round ℕ
round = record {
  conn = up;
  answers = record { opens = some 3; sets_qos = true; declares = true; consumes = true };
  events = delivers 41 true ∷ delivers 42 true ∷ ends ∷ [];
  cut = false;
}

rounds-Hears : Hears (away_round ∷ round ∷ []) (41 ∷ 42 ∷ [])
rounds-Hears = misses away_round (not_opened refl) refl (
    hears round (41 ∷ 42 ∷ []) (ends ∷ [])
      (record {
        conn = 7;
        channel = 3;
        has_conn = refl;
        is_up = refl;
        opens = refl;
        sets_qos = refl;
        declares = refl;
        consumes = refl;
      })
      refl (closed_off []) nothing_more)

run-heard_example :
    ((run 0 (away_round ∷ round ∷ [])).0 ≡ 41 ∷ 42 ∷ [])
    × All (λ w. w ≤ 60) (run 0 (away_round ∷ round ∷ [])).1
run-heard_example = run-heard 0 rounds-Hears
