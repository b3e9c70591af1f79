-- ===== src/Rabbit/Publisher.antt =====
-- publisher.go: a message sent with the broker's confirmation, and the declarations of queues.
use open_v_center_agent_hype.Base.{
  ◌⊎◌, ℕ, String, Bool, true, false, not, Option, none, some, List, [], ◌∷◌, ◌≡◌, ◌↔◌, arith,
  if◌then◌else◌, inl, inr, Option-cases,
}
use open_v_center_agent_hype.Rabbit.{Connection, Channel, new_channel, current_channel}

-- What lands on the notification channels in the moment after a positive confirmation.
pub data Landed : Type 0 where
  nothing : Landed
  returned : Landed
  channel_ends : Option String → Landed

-- How the broker's confirmation comes: never, or positive or negative.
pub data Confirm : Type 0 where
  no_confirm : Confirm
  answered : Bool → Confirm

-- What JSON and the library answer to one message.
pub record Sending : Type 0 where
  pub body : Option String
  pub opens : Option ℕ
  pub confirm_mode : Bool
  pub publishes : Bool
  pub confirm : Confirm
  pub landed : Landed

-- The channel that is used, what is handed to the broker, and the error.
pub record Published : Type 0 where
  pub used : Option Channel
  pub sent : List String
  pub error : Option String

abbrev outcome_of : Confirm → Landed → Option String
outcome_of no_confirm l = some "no broker confirm"
outcome_of (answered false) l = some "broker NACKed message"
outcome_of (answered true) nothing = none
outcome_of (answered true) returned = some "message returned as unroutable"
outcome_of (answered true) (channel_ends none) = none
outcome_of (answered true) (channel_ends (some e)) = some "confirm channel closed while publishing"

send_on : Sending → String → Option Channel → Published
send_on x body none = record { used = none; sent = []; error = some "open confirm channel" }
send_on x body (some ch) =
    if not x.confirm_mode
    then record { used = some ch; sent = []; error = some "enable publisher confirms" }
    else if not x.publishes
    then record { used = some ch; sent = []; error = some "publish" }
    else record { used = some ch; sent = body ∷ []; error = outcome_of x.confirm x.landed }

marshalled : Sending → Connection → Option String → Published
marshalled x s none = record { used = none; sent = []; error = some "marshal message" }
marshalled x s (some body) = send_on x body (new_channel x.opens s)

unfoldable pub publish_confirmed : Sending → Connection → Published
unfolding marshalled send_on
publish_confirmed x s = marshalled x s x.body

-- PublishTo, on the shared channel.
to_channel : Sending → Option Channel → Published
to_channel x none = record { used = none; sent = []; error = some "not connected" }
to_channel x (some ch) = elim x.body [
  | none ↦ record { used = some ch; sent = []; error = some "marshal message" }
  | some body ↦
      if x.publishes
      then record { used = some ch; sent = body ∷ []; error = none }
      else record { used = some ch; sent = []; error = some "publish" }
]

unfoldable pub publish_to : (Channel → Bool) → Sending → Connection → Published
unfolding to_channel
publish_to dead x s = to_channel x (current_channel dead s)

-- The message is with the broker: it was sent alone, on a channel of its own of a live connection, and
-- the broker took it.
pub record IsDelivered (x : Sending) (s : Connection) : Type 0 where
  pub body : String
  pub conn : ℕ
  pub id : ℕ
  pub marshals : x.body ≡ some body
  pub connected : (s.conn ≡ some conn) × (s.up conn ≡ true)
  pub opens : x.opens ≡ some id
  pub confirms : x.confirm_mode ≡ true
  pub publishes : x.publishes ≡ true
  pub acked : x.confirm ≡ answered true
  pub stays : (x.landed ≡ nothing) ⊎ (x.landed ≡ channel_ends none)
  pub own_channel : (publish_confirmed x s).used ≡ some (record { on = conn; id = id })
  pub sent_once : (publish_confirmed x s).sent ≡ body ∷ []

taken :
    (c : Confirm) (l : Landed)
    → outcome_of c l ≡ none
    → (c ≡ answered true) × ((l ≡ nothing) ⊎ (l ≡ channel_ends none))
taken (answered true) nothing h = ground arith
taken (answered true) (channel_ends none) h = ground arith
taken (answered true) (channel_ends (some e)) h = ground arith
taken (answered true) returned h = ground arith
taken (answered false) l h = ground arith
taken no_confirm l h = ground arith

untaken :
    (c : Confirm) (l : Landed)
    → c ≡ answered true
    → (l ≡ nothing) ⊎ (l ≡ channel_ends none)
    → outcome_of c l ≡ none
untaken c l h k = ground arith

IsDelivered-by :
    (x : Sending) (s : Connection)
    → (x.body ≡ none) ⊎ ((b : String) × (x.body ≡ some b))
    → (x.opens ≡ none) ⊎ ((c : ℕ) × (x.opens ≡ some c))
    → (s.conn ≡ none) ⊎ ((n : ℕ) × (s.conn ≡ some n))
    → (publish_confirmed x s).error ≡ none
    → IsDelivered x s
unfolding publish_confirmed new_channel
IsDelivered-by x s (inl e) b c h = ground arith
IsDelivered-by x s (inr a) (inl e) c h = ground arith
IsDelivered-by x s (inr a) (inr b) (inl e) h = ground arith
IsDelivered-by x s (inr (body, e)) (inr (c, o)) (inr (n, k)) h =
    let up : s.up n ≡ true = ground arith in
    let mode : x.confirm_mode ≡ true = ground arith in
    let sent : x.publishes ≡ true = ground arith in
    let done = taken x.confirm x.landed (ground arith) in
    record {
      body = body;
      conn = n;
      id = c;
      marshals = e;
      connected = (k, up);
      opens = o;
      confirms = mode;
      publishes = sent;
      acked = done.0;
      stays = done.1;
      own_channel = ground arith;
      sent_once = ground arith;
    }

publish_confirmed-IsDelivered :
    (x : Sending) (s : Connection) → (publish_confirmed x s).error ≡ none → IsDelivered x s
publish_confirmed-IsDelivered x s =
    IsDelivered-by x s (Option-cases x.body) (Option-cases x.opens) (Option-cases s.conn)

IsDelivered-publish_confirmed :
    (x : Sending) (s : Connection) → IsDelivered x s → (publish_confirmed x s).error ≡ none
unfolding publish_confirmed new_channel
IsDelivered-publish_confirmed x s d = ground (arith, untaken x.confirm x.landed d.acked d.stays)

-- A confirmed publication reports no error exactly when the message is with the broker: it has a body,
-- the current connection is up and opens a channel, the channel takes confirmations and the message,
-- the broker acknowledges it, and it neither comes back nor does the channel end with an error. The
-- message is then sent once, on the channel of its own.
pub publish_confirmed-iff-IsDelivered :
    (x : Sending) (s : Connection) → ((publish_confirmed x s).error ≡ none) ↔ IsDelivered x s
publish_confirmed-iff-IsDelivered x s =
    (publish_confirmed-IsDelivered x s, IsDelivered-publish_confirmed x s)
