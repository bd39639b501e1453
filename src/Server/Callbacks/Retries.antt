-- ===== src/Server/Callbacks/Retries.antt =====
-- server/src/callbacks.rs: what `max_retries` changes.
use xmrgateway.Prelude.{ℕ, ◌≡◌, refl, ap, Bool, true, false, Option, List, [], ◌∷◌, ◌++◌}
use xmrgateway.Server.Callbacks.{
  CallbackQueue, CallbackCommand, shutdown, call, receive, handle_command,
}

-- Two queues differ at most in the identifiers that were warned of.
pub record SameCalls (p q : CallbackQueue) : Type 0 where
  pub waiting : p.waiting ≡ q.waiting
  pub tasks : p.tasks ≡ q.tasks
  pub is_open : p.is_open ≡ q.is_open
  pub panicked : p.panicked ≡ q.panicked

handled :
    (m n : Option ℕ) (command : CallbackCommand) (p q : CallbackQueue)
    → SameCalls p q
    → SameCalls (handle_command m command p) (handle_command n command q)
unfolding handle_command
handled m n shutdown p q s = record {
  waiting = s.waiting;
  tasks = s.tasks;
  is_open = refl;
  panicked = s.panicked;
}
handled m n (call c) p q s = record {
  waiting = s.waiting;
  tasks = ap (λ l. l ++ c ∷ []) s.tasks;
  is_open = s.is_open;
  panicked = s.panicked;
}

-- Two queues that differ at most in the identifiers that were warned of still do so after each has
-- received a command, whatever the bounds on the number of retries, if any: the calls that are made
-- do not depend on the bound.
pub receive-SameCalls :
    (m n : Option ℕ) (p q : CallbackQueue) → SameCalls p q → SameCalls (receive m p) (receive n q)
unfolding receive
receive-SameCalls m n p q s = received q.is_open q.waiting s.is_open s.waiting refl refl
  where
    received :
        (b : Bool) (l : List CallbackCommand)
        → p.is_open ≡ b
        → p.waiting ≡ l
        → q.is_open ≡ b
        → q.waiting ≡ l
        → SameCalls (receive m p) (receive n q)
    received false l po pw qo qw = rw (po, qo, receive) s
    received true [] po pw qo qw = rw (po, pw, qo, qw, receive) s
    received true (command ∷ rest) po pw qo qw =
        rw (po, pw, qo, qw, receive)
          (handled m n command (record p { waiting = rest }) (record q { waiting = rest })
            (record {
              waiting = refl;
              tasks = s.tasks;
              is_open = s.is_open;
              panicked = s.panicked;
            }))
