-- ===== src/Server/Callbacks/Pace.antt =====
-- server/src/callbacks.rs: the delays of the calls that are retried.
use Prim.Native.Nat.{max}
use xmrgateway.Prelude.{
  ℕ, ◌≤◌, ◌<◌, ◌≡◌, refl, subst, Bool, true, false, Option, List, [], ◌∷◌, ◌++◌, All, All-append,
  arith, inl, inr, Bool-cases,
}
use xmrgateway.Server.Callbacks.{
  Call, CallbackQueue, CallbackCommand, shutdown, call, send, receive, handle_command, retry,
  new_delay, finish, initial_callback_retry_delay, max_retry_delay, Step, sent, stopped, received,
  ended, Reachable, started, stepped,
}

-- A call that was retried waits for a second at least and an hour at most.
abbrev pub IsPacedCall : Call → Type 0
IsPacedCall c =
    0 < c.retry_count → (initial_callback_retry_delay ≤ c.delay) × (c.delay ≤ max_retry_delay)

abbrev pub IsPacedCommand : CallbackCommand → Type 0
IsPacedCommand shutdown = Unit
IsPacedCommand (call c) = IsPacedCall c

pub record IsPaced (q : CallbackQueue) : Type 0 where
  pub waiting : All IsPacedCommand q.waiting
  pub tasks : All IsPacedCall q.tasks

module _ (one_and_a_half : ℕ → ℕ) where
  retry-IsPacedCall :
      (c : Call) → ((d : ℕ) → d ≤ one_and_a_half d) → IsPacedCall (retry one_and_a_half c)
  unfolding retry new_delay
  retry-IsPacedCall c grows h =
      let low : max c.delay initial_callback_retry_delay
          ≤ one_and_a_half (max c.delay initial_callback_retry_delay) =
        grows (max c.delay initial_callback_retry_delay) in
      (omega arith, omega arith)

send-IsPaced :
    (command : CallbackCommand) (q : CallbackQueue)
    → IsPacedCommand command
    → IsPaced q
    → IsPaced (send command q).1
unfolding send
send-IsPaced command q h p = elim (Bool-cases q.is_open) [
  | inl taken ↦
      rw (taken, send)
        (record {
          waiting = All-append IsPacedCommand q.waiting (command ∷ []) p.waiting (h, tt);
          tasks = p.tasks;
        })
  | inr closed ↦ rw (closed, send) p
]

handle-IsPaced :
    (m : Option ℕ) (command : CallbackCommand) (q : CallbackQueue)
    → IsPacedCommand command
    → IsPaced q
    → IsPaced (handle_command m command q)
unfolding handle_command
handle-IsPaced m shutdown q h p = record { waiting = p.waiting; tasks = p.tasks }
handle-IsPaced m (call c) q h p = record {
  waiting = p.waiting;
  tasks = All-append IsPacedCall q.tasks (c ∷ []) p.tasks (h, tt);
}

All-split :
    (before after : List Call) (c : Call)
    → All IsPacedCall (before ++ c ∷ after)
    → All IsPacedCall (before ++ after)
All-split [] after c h = h.1
All-split (b ∷ before) after c h = (h.0, All-split before after c h.1)

receive-IsPaced : (m : Option ℕ) (q : CallbackQueue) → IsPaced q → IsPaced (receive m q)
unfolding receive
receive-IsPaced m q p = next q.is_open q.waiting refl refl
  where
    next :
        (b : Bool) (l : List CallbackCommand)
        → q.is_open ≡ b
        → q.waiting ≡ l
        → IsPaced (receive m q)
    next false l o w = rw (o, receive) p
    next true [] o w = rw (o, w, receive) p
    next true (command ∷ rest) o w =
        let both : All IsPacedCommand (command ∷ rest) = subst (All IsPacedCommand) w p.waiting in
        rw (o, w, receive)
          (handle-IsPaced m command (record q { waiting = rest }) both.0
            (record { waiting = both.1; tasks = p.tasks }))

module _ (one_and_a_half : ℕ → ℕ) where
  finish-IsPaced :
      (is_ok : Bool) (c : Call) (q : CallbackQueue)
      → ((d : ℕ) → d ≤ one_and_a_half d)
      → IsPaced q
      → IsPaced (finish one_and_a_half is_ok c q)
  unfolding finish
  finish-IsPaced true c q grows p = p
  finish-IsPaced false c q grows p = elim (Bool-cases q.is_open) [
    | inl taken ↦
        rw (taken, finish)
          (send-IsPaced (call (retry one_and_a_half c)) q (retry-IsPacedCall one_and_a_half c grows)
            p)
    | inr closed ↦ rw (closed, finish) (record { waiting = p.waiting; tasks = p.tasks })
  ]

  Step-IsPaced :
      (m : Option ℕ) {p q : CallbackQueue}
      → ((d : ℕ) → d ≤ one_and_a_half d)
      → Step one_and_a_half m p q
      → IsPaced p
      → IsPaced q
  Step-IsPaced m grows (sent p invoice) h =
      send-IsPaced (call (record { invoice = invoice; retry_count = 0; delay = 0 })) p
        (λ pos. absurd (omega arith)) h
  Step-IsPaced m grows (stopped p) h = send-IsPaced shutdown p tt h
  Step-IsPaced m grows (received p) h = receive-IsPaced m p h
  Step-IsPaced m grows (ended p before c after is_ok e) h =
      finish-IsPaced is_ok c (record p { tasks = before ++ after }) grows
        (record {
          waiting = h.waiting;
          tasks = All-split before after c (subst (All IsPacedCall) e h.tasks);
        })

  -- If one and a half times a delay is never less than the delay, then in whatever order updates
  -- are sent, commands received and calls end, every call that was retried waits for at least a
  -- second and at most an hour.
  pub Reachable-IsPaced :
      (m : Option ℕ) (q : CallbackQueue)
      → ((d : ℕ) → d ≤ one_and_a_half d)
      → Reachable one_and_a_half m q
      → IsPaced q
  Reachable-IsPaced m q grows started = record { waiting = tt; tasks = tt }
  Reachable-IsPaced m q grows (stepped {p} r s) =
      Step-IsPaced m grows s (Reachable-IsPaced m p grows r)
