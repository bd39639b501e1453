-- ===== src/Storage/Manager/Queue.antt =====
-- The loop of the manager's task: the clients put messages into its queue at any time, and it handles
-- them one after the other.
use xmrgateway.Prelude.{◌≡◌, List, [], ◌∷◌, ◌++◌, Result}
use xmrgateway.Storage.Traits.{Storage}
use xmrgateway.Storage.Manager.{Method, handle}

module _ {E : Type 0} (st : Storage E) (Shared : Type 0) where
  abbrev pub Message : Type 1
  Message = (A : Type 0) × Method E Shared A

  abbrev pub Response : Type 1
  Response = (A : Type 0) × Result E A

  abbrev pub State : Type 0
  State = st.Store × Shared

  abbrev pub respond : Message → State → Response × State
  respond (A, m) s = let (result, next) = handle st Shared m s in ((A, result), next)

  -- The responses stand in the order in which they were sent.
  pub record System : Type 1 where
    pub state : State
    pub inbox : List Message
    pub responses : List Response

  abbrev pub handled_one : Message → List Message → System → System
  handled_one m rest s =
      let (response, next) = respond m s.state in
      record { state = next; inbox = rest; responses = s.responses ++ response ∷ [] }

  -- The systems that sends and handlings can lead to, with the messages sent so far.
  pub data Reachable (start : State) : List Message → System → Type 1 where
    started : Reachable start [] (record { state = start; inbox = []; responses = [] })
    sent :
        {log : List Message} {s : System} (m : Message)
        → Reachable start log s
        → Reachable start (log ++ m ∷ []) (record s { inbox = s.inbox ++ m ∷ [] })
    handled :
        {log : List Message} {s : System} (m : Message) (rest : List Message)
        → s.inbox ≡ m ∷ rest
        → Reachable start log s
        → Reachable start log (handled_one m rest s)
