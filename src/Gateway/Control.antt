-- ===== src/Gateway/Control.antt =====
-- library/src/payment_gateway.rs: `run`, `status` and `stop`, which share the handle of the scanning
-- thread behind a lock that is not reentrant.
use xmrgateway.Prelude.{
  ◌≡◌, ◌↔◌, refl, sym, subst, Bool, true, false, Option, none, some, Result, ok, err, arith,
}

-- The scanning thread as its handle shows it: running, or finished with what `join` gives.
pub data Thread (X : Type 0) : Type 0 where
  running : Thread X
  finished : Result X (Unit {0}) → Thread X

-- `PaymentGatewayStatus`
pub data Status (X : Type 0) : Type 0 where
  is_running : Status X
  not_running : Status X
  failed : X → Status X

-- The errors of `AcceptXmrError` that can arise here.
pub data ControlError (X Y : Type 0) : Type 0 where
  already_running : ControlError X Y
  starting : Y → ControlError X Y
  scanner : X → ControlError X Y
  stop_signal : ControlError X Y

-- The handle with its lock.
pub record Control (X : Type 0) : Type 0 where
  pub handle : Option (Thread X)
  pub locked : Bool

module _ {X : Type 0} where
  -- `lock().await`: nothing while another guard is alive, which in these methods is their own.
  unfoldable pub lock : Control X → Option (Control X)
  lock c = elim c.locked [ true ↦ none | false ↦ some (record c { locked = true }) ]

  abbrev pub unlock : Control X → Control X
  unlock c = record c { locked = false }

  -- `take()`
  abbrev pub take_handle : Control X → Control X
  take_handle c = record c { handle = none }

  -- The status that `join` gives rise to.
  abbrev pub joined_status : Result X (Unit {0}) → Status X
  joined_status (ok u) = not_running
  joined_status (err e) = failed e

  -- With the guard held; the branch of a finished thread locks again to take the handle.
  unfoldable pub status_held : Control X → Option (Status X × Control X)
  unfolding lock
  status_held c = elim c.handle [
    | none ↦ some (not_running, unlock c)
    | some running ↦ some (is_running, unlock c)
    | some (finished r) ↦ elim (lock c) [
      | none ↦ none
      | some again ↦ some (joined_status r, unlock (take_handle again))
    ]
  ]

  unfoldable pub status : Control X → Option (Status X × Control X)
  unfolding lock status_held
  status c = elim (lock c) [ none ↦ none | some held ↦ status_held held ]

  module _ {Y : Type 0} where
    -- The start of `run`, up to the release of the guard.
    unfoldable pub check_running :
        Control X → Option (Result (ControlError X Y) (Unit {0}) × Control X)
    unfolding lock
    check_running c = elim (lock c) [
      | none ↦ none
      | some held ↦ elim held.handle [
        | some running ↦ some (err already_running, unlock held)
        | _ ↦ some (ok tt, unlock held)
      ]
    ]

    -- `run`, where making the scanner either fails or gives a thread.
    unfoldable pub run :
        Result Y (Unit {0}) → Control X → Option (Result (ControlError X Y) (Unit {0}) × Control X)
    unfolding lock check_running
    run made c = elim (check_running c) [
      | none ↦ none
      | some (err e, c') ↦ some (err e, c')
      | some (ok u, c') ↦ elim made [
        | err e ↦ some (err (starting e), c')
        | ok v ↦ elim (lock c') [
          | none ↦ none
          | some held ↦ some (ok tt, unlock (record held { handle = some running }))
        ]
      ]
    ]

    abbrev pub joined : Result X (Unit {0}) → Result (ControlError X Y) (Unit {0})
    joined (ok u) = ok tt
    joined (err e) = err (scanner e)

    -- `stop`, where a thread that still runs ends with `outcome` once it was told to stop, unless the
    -- message cannot be sent. The guard lives to the end of the match.
    unfoldable pub stop :
        Bool
        → Result X (Unit {0})
        → Control X
        → Option (Result (ControlError X Y) (Unit {0}) × Control X)
    unfolding lock
    stop is_sent outcome c = elim (lock c) [
      | none ↦ none
      | some held ↦ elim held.handle [
        | none ↦ some (ok tt, unlock (take_handle held))
        | some (finished r) ↦ some (joined r, unlock (take_handle held))
        | some running ↦ elim is_sent [
          | true ↦ some (joined outcome, unlock (take_handle held))
          | false ↦ some (err stop_signal, unlock (take_handle held))
        ]
      ]
    ]

  abbrev free : Option (Thread X) → Control X
  free o = record { handle = o; locked = false }

  freed : (c : Control X) → c.locked ≡ false → free c.handle ≡ c
  freed c h = λ i. record c { locked = sym h i }

  abbrev Answers : Control X → Type 0
  Answers c =
      ((status c ≡ none) ↔ ((r : Result X (Unit {0})) × (c.handle ≡ some (finished r))))
      × ((s : Status X) (c' : Control X) → status c ≡ some (s, c') → c' ≡ c)

  answers : (o : Option (Thread X)) → Answers (free o)
  unfolding status status_held lock
  answers none =
      ((λ e. absurd (ground arith), λ e. absurd (ground (arith, e.1))), λ s c' e. ground arith)
  answers (some running) =
      ((λ e. absurd (ground arith), λ e. absurd (ground (arith, e.1))), λ s c' e. ground arith)
  answers (some (finished r)) = ((λ e. (r, refl), λ e. refl), λ s c' e. absurd (ground arith))

  -- While no other call holds the lock, the status is not answered, since the call waits for its
  -- own lock, exactly when the handle is that of a thread that has finished. An answer leaves the
  -- handle and the lock alone.
  pub status_lem :
      (c : Control X)
      → c.locked ≡ false
      → ((status c ≡ none) ↔ ((r : Result X (Unit {0})) × (c.handle ≡ some (finished r))))
        × ((s : Status X) (c' : Control X) → status c ≡ some (s, c') → c' ≡ c)
  status_lem c h = subst Answers (freed c h) (answers c.handle)

  module _ (Y : Type 0) where
    abbrev Restarts : Bool → Result X (Unit {0}) → Control X → Type 0
    Restarts is_sent outcome c =
        (r : Result (ControlError X Y) (Unit {0})) × (stopped : Control X) × (started : Control X)
        × (stop is_sent outcome c ≡ some (r, stopped))
        × (run {Y = Y} (ok tt) stopped ≡ some (ok tt, started))
        × (run {Y = Y} (ok tt) started ≡ some (err already_running, started))

    restarts :
        (is_sent : Bool) (outcome : Result X (Unit {0})) (o : Option (Thread X))
        → Restarts is_sent outcome (free o)
    unfolding stop run check_running lock
    restarts is_sent outcome none = (ok tt, free none, free (some running), refl, refl, refl)
    restarts true outcome (some running) =
        (joined outcome, free none, free (some running), refl, refl, refl)
    restarts false outcome (some running) =
        (err stop_signal, free none, free (some running), refl, refl, refl)
    restarts is_sent outcome (some (finished r)) =
        (joined r, free none, free (some running), refl, refl, refl)

    -- While no other call holds the lock: after a call of `stop`, however it ends, a call of `run`
    -- whose scanner can be made succeeds, and a second one fails as already running.
    pub run-stop :
        (c : Control X) (is_sent : Bool) (outcome : Result X (Unit {0}))
        → c.locked ≡ false
        → (r : Result (ControlError X Y) (Unit {0})) × (stopped : Control X) × (started : Control X)
          × (stop is_sent outcome c ≡ some (r, stopped))
          × (run {Y = Y} (ok tt) stopped ≡ some (ok tt, started))
          × (run {Y = Y} (ok tt) started ≡ some (err already_running, started))
    run-stop c is_sent outcome h =
        subst (Restarts is_sent outcome) (freed c h) (restarts is_sent outcome c.handle)
