-- ===== src/External/Channel.antt =====
-- tokio's bounded mpsc channels, seen from the senders: a send fails exactly when the receiver is
-- closed, and otherwise queues the item. A send waits while the buffer is full; the interface
-- speaks of the moment at which it is done. `queues` shows that it can be met.
use xmrgateway.Prelude.{
  ℕ, ◌≡◌, Bool, true, false, List, [], ◌∷◌, ◌++◌, Eq, ◌==◌, nat_eq, if◌then◌else◌, arith,
}

pub record Channel (Item : Type 0) : Type 1 where
  pub World : Type 0
  pub Sender : Type 0
  -- `same_channel`
  pub sender_eq : Eq Sender
  pub is_closed : World → Sender → Bool
  pub received : World → Sender → List Item
  -- The world after the send, and whether it succeeded.
  pub send : Sender → Item → World → World × Bool
  pub send_result :
      (s : Sender) (x : Item) (w : World) → (send s x w).1 ≡ (if is_closed w s then false else true)
  pub closed-send :
      (s : Sender) (x : Item) (w : World) (t : Sender) → is_closed (send s x w).0 t ≡ is_closed w t
  pub received-send :
      (s : Sender) (x : Item) (w : World) (t : Sender)
      → received (send s x w).0 t ≡ (
          if sender_eq.beq s t
          then (if is_closed w s then received w t else received w t ++ x ∷ [])
          else received w t)

-- Channels by number: which are closed, and what each has received.
pub record Queues (Item : Type 0) : Type 0 where
  pub closed : ℕ → Bool
  pub queue : ℕ → List Item

module _ {Item : Type 0} where
  abbrev queues_send : ℕ → Item → Queues Item → Queues Item × Bool
  queues_send s x w =
      if w.closed s
      then (w, false)
      else (record w { queue = λ t. if s == t then w.queue t ++ x ∷ [] else w.queue t }, true)

  pub queues-result :
      (s : ℕ) (x : Item) (w : Queues Item)
      → (queues_send s x w).1 ≡ (if w.closed s then false else true)
  queues-result s x w = ground arith

  pub queues-closed :
      (s : ℕ) (x : Item) (w : Queues Item) (t : ℕ) → (queues_send s x w).0.closed t ≡ w.closed t
  queues-closed s x w t = ground arith

  pub queues-received :
      (s : ℕ) (x : Item) (w : Queues Item) (t : ℕ)
      → (queues_send s x w).0.queue t
        ≡ (if s == t then (if w.closed s then w.queue t else w.queue t ++ x ∷ []) else w.queue t)
  queues-received s x w t = ground arith

abbrev pub queues : (Item : Type 0) → Channel Item
queues Item = record {
  World = Queues Item;
  Sender = ℕ;
  sender_eq = nat_eq;
  is_closed = λ w. w.closed;
  received = λ w. w.queue;
  send = queues_send;
  send_result = queues-result;
  closed-send = queues-closed;
  received-send = queues-received;
}
