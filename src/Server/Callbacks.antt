-- ===== src/Server/Callbacks.antt =====
-- server/src/callbacks.rs: the queue of callbacks. Delays are numbers of nanoseconds. The tasks sleep
-- and call side by side, so that they end in any order; whether a call succeeds is the recipient's
-- doing, and how a delay is multiplied by 1.5 through floating-point seconds is a parameter.
pub mod Pace
pub mod Retries
use Prim.Native.Nat.{max, min}
use xmrgateway.Prelude.{
  ℕ, zero, suc, ◌+◌, ◌*◌, ◌-◌, ◌≡◌, Bool, true, false, Option, none, some, List, [], ◌∷◌, ◌++◌, leb,
  u64_mod,
}
use xmrgateway.Invoice.{InvoiceId, Invoice, id}

-- `INITIAL_CALLBACK_RETRY_DELAY`, one second.
abbrev pub initial_callback_retry_delay : ℕ
initial_callback_retry_delay = 1000000000

-- `Duration::from_secs(60 * 60)`
abbrev pub max_retry_delay : ℕ
max_retry_delay = 3600 * 1000000000

pub record Call : Type 0 where
  pub invoice : Invoice
  pub retry_count : ℕ
  pub delay : ℕ

pub data CallbackCommand : Type 0 where
  shutdown : CallbackCommand
  call : Call → CallbackCommand

-- The commands in the channel, the calls that tasks sleep for or make, the identifiers that were
-- warned of, whether the loop still receives, and the tasks that have panicked.
pub record CallbackQueue : Type 0 where
  pub waiting : List CallbackCommand
  pub tasks : List Call
  pub warned : List InvoiceId
  pub is_open : Bool
  pub panicked : List Call

abbrev pub queue_init : CallbackQueue
queue_init = record { waiting = []; tasks = []; warned = []; is_open = true; panicked = [] }

-- `CallbackQueue::send`, and whether it succeeded.
unfoldable pub send : CallbackCommand → CallbackQueue → Bool × CallbackQueue
send command q = elim q.is_open [
  | true ↦ (true, record q { waiting = q.waiting ++ command ∷ [] })
  | false ↦ (false, q)
]

-- `max_retries.is_some_and(|max| retry_count >= max)`
abbrev pub is_exhausted : Option ℕ → ℕ → Bool
is_exhausted none retry_count = false
is_exhausted (some max_retries) retry_count = leb max_retries retry_count

-- One round of the loop, for the command that it has received.
unfoldable pub handle_command : Option ℕ → CallbackCommand → CallbackQueue → CallbackQueue
handle_command max_retries shutdown q = record q { is_open = false }
handle_command max_retries (call c) q = record q {
  tasks = q.tasks ++ c ∷ [];
  warned = elim (is_exhausted max_retries c.retry_count) [
    | true ↦ q.warned ++ id c.invoice ∷ []
    | false ↦ q.warned
  ];
}

-- The loop receives while it is open and there is a command.
unfoldable pub receive : Option ℕ → CallbackQueue → CallbackQueue
unfolding handle_command
receive max_retries q = elim q.is_open [
  | false ↦ q
  | true ↦ elim q.waiting [
    | [] ↦ q
    | command ∷ rest ↦ handle_command max_retries command (record q { waiting = rest })
  ]
]

module _ (one_and_a_half : ℕ → ℕ) where
  unfoldable pub new_delay : ℕ → ℕ
  new_delay delay = min (one_and_a_half (max delay initial_callback_retry_delay)) max_retry_delay

  -- The command that a failed call sends; the count saturates at the greatest `usize`.
  unfoldable pub retry : Call → Call
  unfolding new_delay
  retry c = record c {
    retry_count = min (c.retry_count + 1) (u64_mod - 1);
    delay = new_delay c.delay;
  }

  -- The end of a task, taken off the tasks, whose call succeeds or fails. The `expect` on a queue that
  -- is closed ends the task.
  unfoldable pub finish : Bool → Call → CallbackQueue → CallbackQueue
  unfolding retry send
  finish true c q = q
  finish false c q = elim q.is_open [
    | true ↦ (send (call (retry c)) q).1
    | false ↦ record q { panicked = q.panicked ++ c ∷ [] }
  ]

  -- What can happen to a queue: an update of an invoice or a shutdown is sent, the loop receives, or a task ends.
  pub data Step (max_retries : Option ℕ) : CallbackQueue → CallbackQueue → Type 0 where
    sent :
        (q : CallbackQueue) (invoice : Invoice)
        → Step max_retries q
            (send (call (record { invoice = invoice; retry_count = 0; delay = 0 })) q).1
    stopped : (q : CallbackQueue) → Step max_retries q (send shutdown q).1
    received : (q : CallbackQueue) → Step max_retries q (receive max_retries q)
    ended :
        (q : CallbackQueue) (before : List Call) (c : Call) (after : List Call) (is_ok : Bool)
        → q.tasks ≡ before ++ c ∷ after
        → Step max_retries q (finish is_ok c (record q { tasks = before ++ after }))

  -- What a queue can become after it was set up.
  pub data Reachable (max_retries : Option ℕ) : CallbackQueue → Type 0 where
    started : Reachable max_retries queue_init
    stepped :
        {p q : CallbackQueue}
        → Reachable max_retries p
        → Step max_retries p q
        → Reachable max_retries q
