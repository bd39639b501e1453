-- ===== src/Gateway/Scanning.antt =====
-- library/src/payment_gateway.rs: the loop of the scanning thread. A round is what its turn of the loop
-- meets: the command in the channel, the highest minor index in use at each load, and the daemon. The waiting for the
-- scan interval has no effect on the state.
use Prim.Native.Nat.{min}
use xmrgateway.Prelude.{
  ℕ, ◌+◌, ◌-◌, ◌≡◌, refl, nat_eq, Bool, true, false, List, [], ◌∷◌, ◌++◌, All, leb, if◌then◌else◌,
  u32_mod,
}
use xmrgateway.External.Monero.{Monero, Daemon}
use xmrgateway.External.Channel.{Channel}
use xmrgateway.External.IndexMap.{IndexMap}
use xmrgateway.Invoice.{Invoice}
use xmrgateway.Storage.Traits.{Storage}
use xmrgateway.Pubsub.{SenderId}
use xmrgateway.Scanner.Scan.{Outputs}
use xmrgateway.Scanner.Pass.{Scanner, scan}

-- What `try_recv` gives.
pub data Received : Type 0 where
  stop_signal : Received
  empty : Received
  disconnected : Received

-- `saturating_add(1)` on u32.
abbrev pub saturating_next : ℕ → ℕ
saturating_next n = min (n + 1) (u32_mod - 1)

-- `SubKeyChecker` of the crate monero for a wallet's keys: `new`, from the ends of the ranges of major
-- and of minor indices, and the length of its table.
pub record Checkers (K : Type 0) : Type 0 where
  pub new : (major_start major_end minor_start minor_end : ℕ) → K
  pub table_length : K → ℕ

module _ {K : Type 0} (checkers : Checkers K) (major_index : ℕ) where
  abbrev pub checker_new : ℕ → K
  checker_new highest_minor_index =
      checkers.new major_index (saturating_next major_index) 0 (saturating_next highest_minor_index)

  -- The highest minor index is loaded for the test, and again for the new checker.
  unfoldable pub renew : (tested loaded : ℕ) → K → K
  renew tested loaded c = if leb (checkers.table_length c) tested then checker_new loaded else c

pub record Round (mo : Monero) (D : Type 0) : Type 0 where
  pub received : Received
  pub tested_minor_index : ℕ
  pub loaded_minor_index : ℕ
  pub daemon : Daemon mo D

module _ (mo : Monero) {E C D K : Type 0} (st : Storage E) (checkers : Checkers K)
    (outs : K → Outputs mo C) (ch : Channel Invoice) (ix : IndexMap SenderId ch.Sender)
    (major_index : ℕ) where
  -- One pass with a checker, whose error is logged and dropped.
  abbrev pub pass : Round mo D → K × Scanner mo st ch ix → K × Scanner mo st ch ix
  pass r (c, sc) =
      let c' = renew checkers major_index r.tested_minor_index r.loaded_minor_index c in
      (c', (scan mo st (outs c') ch ix r.daemon sc).1)

  -- Whether the loop has ended after some rounds, and what it has made of checker and scanner.
  unfoldable pub scan_loop :
      List (Round mo D) → K × Scanner mo st ch ix → Bool × (K × Scanner mo st ch ix)
  scan_loop [] s = (false, s)
  scan_loop (r ∷ rounds) s =
      let rest = scan_loop rounds (pass r s) in
      elim r.received [ stop_signal ↦ (true, s) | disconnected ↦ (true, s) | empty ↦ rest ]

  abbrev pub passes : List (Round mo D) → K × Scanner mo st ch ix → K × Scanner mo st ch ix
  passes [] s = s
  passes (r ∷ rounds) s = passes rounds (pass r s)

  -- The loop goes through one pass for every round in which it has no command, whether the passes
  -- succeed or fail, and ends at the first round with one, of whatever kind, without another pass.
  pub scan_loop_lem :
      (before after : List (Round mo D)) (r : Round mo D) (s : K × Scanner mo st ch ix)
      → All (λ q. q.received ≡ empty) before
      → (r.received ≡ empty → ⊥)
      → (scan_loop before s ≡ (false, passes before s))
        × (scan_loop (before ++ r ∷ after) s ≡ (true, passes before s))
  unfolding scan_loop
  scan_loop_lem [] after r s h stops = (refl, ended r.received refl)
    where
      ended : (x : Received) → r.received ≡ x → scan_loop (r ∷ after) s ≡ (true, s)
      ended stop_signal e = rw (e, scan_loop) refl
      ended disconnected e = rw (e, scan_loop) refl
      ended empty e = absurd (stops e)
  scan_loop_lem (q ∷ before) after r s h stops =
      let (going, done) = scan_loop_lem before after r (pass q s) h.1 stops in
      (rw (h.0, scan_loop) going, rw (h.0, scan_loop) done)
