-- ===== src/Channel.antt =====
-- The channels of tokio (`tokio::sync::mpsc`), which src/client.rs and src/session.rs use. The crate
-- is not in the repository: its calls are the fields of `Mpsc`, and `IsFifo` says what its
-- documentation promises of them.
use rust_pinecone.Prelude.{
  ℕ, ◌≡◌, refl, Bool, true, false, List, [], ◌∷◌, ◌++◌, Option, none, some, length, ltb,
  if◌then◌else◌,
}

-- The messages on their way, how many of them fit, and whether the two sides are still there.
pub record Channel (T : Type 0) : Type 0 where
  pub queue : List T
  pub capacity : ℕ
  pub receiving : Bool
  pub sending : Bool

-- `Poll` of the standard library.
pub data Poll (A : Type 0) : Type 0 where
  ready : A → Poll A
  pending : Poll A

-- `full` is `TrySendError::Full`, or the future of `send` that has to wait; `closed` says that the
-- receiver is gone.
pub data Sent : Type 0 where
  accepted full closed : Sent

pub record Mpsc (T : Type 0) : Type 0 where
  pub channel : ℕ → Channel T
  pub try_send : T → Channel T → Sent × Channel T
  pub send : T → Channel T → Sent × Channel T
  pub poll_recv : Channel T → Poll (Option T) × Channel T
  pub drop_receiver : Channel T → Channel T

module _ {T : Type 0} where
  abbrev pub fresh : ℕ → Channel T
  fresh n = record { queue = []; capacity = n; receiving = true; sending = true }

  -- A message goes behind the others, if it fits and the receiver is there.
  abbrev pub push : T → Channel T → Sent × Channel T
  push x c =
      if c.receiving
      then if ltb (length c.queue) c.capacity
        then (accepted, record c { queue = c.queue ++ x ∷ [] })
        else (full, c)
      else (closed, c)

  -- The first message goes out. An empty channel is at its end once there is no sender.
  abbrev pub pop : List T → Channel T → Poll (Option T) × Channel T
  pop [] c = (if c.sending then pending else ready none, c)
  pop (x ∷ xs) c = (ready (some x), record c { queue = xs })

pub record IsFifo {T : Type 0} (m : Mpsc T) : Type 0 where
  pub channel_lem : (n : ℕ) → m.channel n ≡ fresh n
  pub try_send_lem : (x : T) (c : Channel T) → m.try_send x c ≡ push x c
  pub send_lem : (x : T) (c : Channel T) → m.send x c ≡ push x c
  pub poll_recv_lem : (c : Channel T) → m.poll_recv c ≡ pop c.queue c
  pub drop_receiver_lem :
      (c : Channel T) → m.drop_receiver c ≡ record c { receiving = false; queue = [] }

-- Channels that behave so.
abbrev pub fifo : {T : Type 0} → Mpsc T
fifo = record {
  channel = fresh;
  try_send = push;
  send = push;
  poll_recv = λ c. pop c.queue c;
  drop_receiver = λ c. record c { receiving = false; queue = [] };
}

pub fifo-IsFifo : {T : Type 0} → IsFifo (fifo {T = T})
fifo-IsFifo = record {
  channel_lem = λ n. refl;
  try_send_lem = λ x c. refl;
  send_lem = λ x c. refl;
  poll_recv_lem = λ c. refl;
  drop_receiver_lem = λ c. refl;
}
