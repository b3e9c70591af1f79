-- ===== src/Rabbit/Consumer.antt =====
-- consumer.go: the subscription to the request queue, and the deliveries that it forwards.
use open_v_center_agent_hype.Base.{
  ℕ, suc, Bool, true, false, not, Option, none, some, List, [], ◌∷◌, ◌++◌, ◌≡◌, ◌≤◌, arith,
  if◌then◌else◌, refl, All, ap, ◌∙◌,
}
use open_v_center_agent_hype.Rabbit.{calculate_backoff, Connection, Channel, new_channel}

-- What the library answers to the calls of one subscription.
pub record Subscribing : Type 0 where
  pub opens : Option ℕ
  pub sets_qos : Bool
  pub declares : Bool
  pub consumes : Bool

-- The channel that consumes, and the channels left open.
unfoldable pub subscribe : Subscribing → Connection → Option Channel
subscribe x s = elim (new_channel x.opens s) [
  | none ↦ none
  | some ch ↦
      if not x.sets_qos
      then none
      else if not x.declares
      then none
      else if x.consumes
      then some ch
      else none
]

-- What the two selects of the pump meet; `takes` says whether the receiver took the delivery before
-- the context ended.
pub data Event {ℓ} (D : Type ℓ) : Type ℓ where
  delivers : D → Bool → Event D
  ends cancels : Event D

-- One round of Run: the calls of its subscription, what its pump meets, and whether the context ends
-- before its wait does.
pub record Round {ℓ} (D : Type ℓ) : Type ℓ where
  pub conn : Connection
  pub answers : Subscribing
  pub events : List (Event D)
  pub cut : Bool

module _ {ℓ} {D : Type ℓ} where
  -- What is forwarded, and whether the context ended.
  unfoldable pub pump : List (Event D) → List D × Bool
  pump [] = ([], false)
  pump (ends ∷ es) = ([], false)
  pump (cancels ∷ es) = ([], true)
  pump (delivers d takes ∷ es) =
      let rest = pump es in if takes then (d ∷ rest.0, rest.1) else ([], true)

  -- A round, before what follows a failed subscription and what follows one that drops.
  abbrev after_round :
      Option Channel → ℕ → Round D → List D × List ℕ → List D × List ℕ → List D × List ℕ
  after_round none attempt r again rest =
      if r.cut then ([], []) else (again.0, calculate_backoff (suc attempt) ∷ again.1)
  after_round (some ch) attempt r again rest =
      if (pump r.events).1 then ((pump r.events).0, []) else ((pump r.events).0 ++ rest.0, rest.1)

  -- Run from an attempt on: what it forwards, and its waits.
  unfoldable pub run : ℕ → List (Round D) → List D × List ℕ
  run attempt [] = ([], [])
  run attempt (r ∷ rs) =
      after_round (subscribe r.answers r.conn) attempt r (run (suc attempt) rs) (run 0 rs)

  -- What a subscription needs: a connection that is up, a channel, and every call granted.
  pub record IsGranted (r : Round D) : Type 0 where
    pub conn : ℕ
    pub channel : ℕ
    pub has_conn : r.conn.conn ≡ some conn
    pub is_up : r.conn.up conn ≡ true
    pub opens : r.answers.opens ≡ some channel
    pub sets_qos : r.answers.sets_qos ≡ true
    pub declares : r.answers.declares ≡ true
    pub consumes : r.answers.consumes ≡ true

  -- What a subscription fails at.
  pub data IsDenied (r : Round D) : Type 0 where
    no_conn : r.conn.conn ≡ none → IsDenied r
    is_down : (n : ℕ) → r.conn.conn ≡ some n → r.conn.up n ≡ false → IsDenied r
    not_opened : r.answers.opens ≡ none → IsDenied r
    no_qos : r.answers.sets_qos ≡ false → IsDenied r
    not_declared : r.answers.declares ≡ false → IsDenied r
    not_consumed : r.answers.consumes ≡ false → IsDenied r

  -- The events of deliveries that are all taken, and of a channel that then ends, if it does.
  abbrev pub taken : List D → List (Event D) → List (Event D)
  taken [] after = after
  taken (d ∷ ds) after = delivers d true ∷ taken ds after

  pub data IsOver : List (Event D) → Type ℓ where
    not_yet : IsOver []
    closed_off : (after : List (Event D)) → IsOver (ends ∷ after)

  -- The deliveries of rounds through which the context lives: those of the rounds that subscribe, up to
  -- the end of their channels.
  pub data Hears : List (Round D) → List D → Type ℓ where
    nothing : Hears [] []
    misses :
        (r : Round D) {rs : List (Round D)} {later : List D}
        → IsDenied r
        → r.cut ≡ false
        → Hears rs later
        → Hears (r ∷ rs) later
    hears :
        (r : Round D) (ds : List D) (after : List (Event D)) {rs : List (Round D)} {later : List D}
        → IsGranted r
        → r.events ≡ taken ds after
        → IsOver after
        → Hears rs later
        → Hears (r ∷ rs) (ds ++ later)

  subscribe-IsDenied : (r : Round D) → IsDenied r → subscribe r.answers r.conn ≡ none
  unfolding subscribe new_channel
  subscribe-IsDenied r (no_conn h) = ground (arith, h)
  subscribe-IsDenied r (is_down n h u) = ground (arith, h, u)
  subscribe-IsDenied r (not_opened h) = ground (arith, h)
  subscribe-IsDenied r (no_qos h) = ground (arith, h)
  subscribe-IsDenied r (not_declared h) = ground (arith, h)
  subscribe-IsDenied r (not_consumed h) = ground (arith, h)

  channel-IsGranted :
      (r : Round D) (g : IsGranted r)
      → new_channel r.answers.opens r.conn ≡ some (record { on = g.conn; id = g.channel })
  unfolding new_channel
  channel-IsGranted r g = rw (g.opens, new_channel) (rw (g.has_conn, new_channel) (rw g.is_up refl))

  subscribe-IsGranted :
      (r : Round D) (g : IsGranted r)
      → subscribe r.answers r.conn ≡ some (record { on = g.conn; id = g.channel })
  unfolding subscribe new_channel
  subscribe-IsGranted r g =
      let opened = channel-IsGranted r g in
      rw (opened, subscribe) (rw (g.sets_qos, g.declares, g.consumes) refl)

  pump-taken :
      (ds : List D) (after : List (Event D)) → IsOver after → pump (taken ds after) ≡ (ds, false)
  unfolding pump
  pump-taken [] [] o = refl
  pump-taken [] (ends ∷ after) o = refl
  pump-taken [] (delivers d b ∷ after) o = elim o [ ]
  pump-taken [] (cancels ∷ after) o = elim o [ ]
  pump-taken (d ∷ ds) after o = ap (λ r. (d ∷ r.0, r.1)) (pump-taken ds after o)

  -- What is forwarded, with waits of a minute at most.
  abbrev Forwards : List D × List ℕ → List D → Type ℓ
  Forwards r ds = (r.0 ≡ ds) × All (λ w. w ≤ 60) r.1

  after_round-missed :
      (attempt : ℕ) (r : Round D) (again rest : List D × List ℕ) (ds : List D)
      → r.cut ≡ false
      → Forwards again ds
      → Forwards (after_round none attempt r again rest) ds
  unfolding calculate_backoff
  after_round-missed attempt r again rest ds c a = ground arith

  after_round-heard :
      (ch : Channel) (attempt : ℕ) (r : Round D) (again rest : List D × List ℕ) (ds later : List D)
      → pump r.events ≡ (ds, false)
      → Forwards rest later
      → Forwards (after_round (some ch) attempt r again rest) (ds ++ later)
  after_round-heard ch attempt r again rest ds later p f = rw (p, f.0) (refl, f.1)

  -- While the context lives, Run forwards the deliveries of every round whose subscription is granted,
  -- up to the end of its channel, in order and whatever was denied or dropped before it, and nothing else;
  -- and no wait is longer than a minute.
  pub run-heard :
      (attempt : ℕ) {rounds : List (Round D)} {ds : List D}
      → Hears rounds ds
      → ((run attempt rounds).0 ≡ ds) × All (λ w. w ≤ 60) (run attempt rounds).1
  unfolding run
  run-heard attempt nothing = (refl, tt)
  run-heard attempt (misses r {rs = rs} denied c later) = rw (subscribe-IsDenied r denied) (
      after_round-missed attempt r (run (suc attempt) rs) (run 0 rs) _ c
        (run-heard (suc attempt) later))
  run-heard attempt (hears r ds after {rs = rs} g e o later) = rw (subscribe-IsGranted r g) (
      after_round-heard (record { on = g.conn; id = g.channel }) attempt r (run (suc attempt) rs)
        (run 0 rs) ds _ (ap pump e ∙ pump-taken ds after o) (run-heard 0 later))
