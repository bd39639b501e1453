-- ===== src/Pubsub/Delivery.antt =====
-- What `send_updates` delivers, and which subscribers it leaves.
use mathlib.Core.List.{append_assoc, append-nil}
use mathlib.Core.Option.{some-injective}
use native.Mathlib.Nat.{zero-add, suc-add}
use xmrgateway.Prelude.{
  ℕ, zero, suc, ◌+◌, ◌≡◌, ◌≢◌, refl, sym, ap, ◌∙◌, Bool, true, false, Option, none, some, List, [],
  ◌∷◌, ◌++◌, nat_eq, length, arith,
}
use xmrgateway.Std.HashMap.{lookup, Distinct}
use xmrgateway.Invoice.{InvoiceId, Invoice, id}
use xmrgateway.Invoice.Order.{invoice_id_eq}
use xmrgateway.External.IndexMap.{IndexMap}
use xmrgateway.External.Channel.{Channel}
use xmrgateway.Pubsub.{Publisher, SenderId, rounds_for, send_loop, send_updates}
use xmrgateway.Pubsub.Loop.{
  State, entries_of, count_sender, copies, open_prefix, Outcome, loop_open,
}

module _ {ℓ} {A : Type ℓ} where
  copies_more : (m n : ℕ) (x : A) → copies false m x ++ copies false n x ≡ copies false (m + n) x
  copies_more zero n x = rw zero-add
  copies_more (suc m) n x = rw suc-add (ap (◌∷◌ x) (copies_more m n x))

  copies_add :
      (c : Bool) (r : List A) (m n : ℕ) (x : A)
      → (r ++ copies c m x) ++ copies c n x ≡ r ++ copies c (m + n) x
  copies_add true r m n x = simp append-nil
  copies_add false r m n x =
      append_assoc r (copies false m x) (copies false n x) ∙ ap (λ l. r ++ l) (copies_more m n x)

module _ (ch : Channel Invoice) (ix : IndexMap SenderId ch.Sender) where
  -- No sender id stands twice among the subscribers of one target.
  abbrev pub HasDistinctIds : Publisher ix.Map → Type 0
  HasDistinctIds p = (target : Option InvoiceId) → Distinct (entries_of ch ix p target)

  module _ (invoice : Invoice) (w : ch.World) (p : Publisher ix.Map) where
    -- The state between the two loops of `send_updates`.
    abbrev between : State ch ix
    between =
        send_loop ch ix (suc (length (entries_of ch ix p (some (id invoice))))) invoice
          (some (id invoice)) 0 false (w, p)

    abbrev finally : State ch ix
    finally =
        send_loop ch ix (suc (length (entries_of ch ix between.1 none))) invoice none 0 false
          between

    rounds :
        (subs : Option ix.Map)
        → rounds_for ch ix subs ≡ suc (length (elim subs [ none ↦ [] | some m ↦ ix.entries m ]))
    rounds none = refl
    rounds (some m) = refl

    send_updates-finally : send_updates ch ix invoice (w, p) ≡ finally
    unfolding send_updates
    send_updates-finally =
        ap
          (λ n.
            let first : State ch ix =
              send_loop ch ix n invoice (some (id invoice)) 0 false (w, p) in
            send_loop ch ix (suc (length (ix.entries first.1.global_subs))) invoice none 0 false
              first)
          (rounds (lookup (id invoice) p.invoice_subs))

    module _ (d : HasDistinctIds p) where
      first_loop :
          Outcome ch ix invoice
            (some (id invoice))
            (open_prefix ch ix w (entries_of ch ix p (some (id invoice))))
            (entries_of ch ix p (some (id invoice)))
            (w, p)
            between
      first_loop =
          loop_open ch ix invoice (some (id invoice)) _ w p []
            (entries_of ch ix p (some (id invoice))) (omega arith) refl (d (some (id invoice)))

      global_kept : entries_of ch ix between.1 none ≡ entries_of ch ix p none
      global_kept = first_loop.others none (λ e. cc)

      second_loop :
          Outcome ch ix invoice none
            (open_prefix ch ix between.0 (entries_of ch ix p none))
            (entries_of ch ix p none)
            between
            finally
      second_loop =
          loop_open ch ix invoice none _ between.0 between.1 [] (entries_of ch ix p none)
            (omega (arith, ap length global_kept)) global_kept (d none)

  open_prefix_same :
      (w w' : ch.World) (E : List (SenderId × ch.Sender))
      → ((t : ch.Sender) → ch.is_closed w' t ≡ ch.is_closed w t)
      → open_prefix ch ix w' E ≡ open_prefix ch ix w E
  open_prefix_same w w' [] h = refl
  open_prefix_same w w' ((k, s) ∷ E) h = rw (h s, open_prefix_same w w' E h)

  -- If the sender ids of each target are distinct, every channel that is not closed receives one
  -- copy of an update for each of its subscriptions to that invoice and to all invoices, and no
  -- other channel receives anything.
  pub send_updates_delivers :
      (invoice : Invoice) (w : ch.World) (p : Publisher ix.Map)
      → HasDistinctIds p
      → (t : ch.Sender)
      → ch.received (send_updates ch ix invoice (w, p)).0 t
        ≡ ch.received w t
          ++ copies
              (ch.is_closed w t)
              (count_sender ch ix t (entries_of ch ix p (some (id invoice)))
                + count_sender ch ix t (entries_of ch ix p none))
              invoice
  send_updates_delivers invoice w p d t =
      let one : Outcome ch ix invoice (some (id invoice))
          (open_prefix ch ix w (entries_of ch ix p (some (id invoice))))
          (entries_of ch ix p (some (id invoice))) (w, p) (between invoice w p) =
        first_loop invoice w p d in
      let two : Outcome ch ix invoice none
          (open_prefix ch ix (between invoice w p).0 (entries_of ch ix p none))
          (entries_of ch ix p none) (between invoice w p) (finally invoice w p) =
        second_loop invoice w p d in
      rw (send_updates-finally invoice w p, two.received t, one.closed t, one.received t)
        (copies_add (ch.is_closed w t) (ch.received w t) _ _ invoice)

  -- If the sender ids of each target are distinct, an update leaves of the subscribers of its
  -- invoice, and of those of all invoices, exactly those in front of the first closed one, so that
  -- open ones behind it are taken away too; the subscribers of other invoices stay.
  pub send_updates_survivors :
      (invoice : Invoice) (w : ch.World) (p : Publisher ix.Map)
      → HasDistinctIds p
      → (entries_of ch ix (send_updates ch ix invoice (w, p)).1 (some (id invoice))
          ≡ open_prefix ch ix w (entries_of ch ix p (some (id invoice))))
        × (entries_of ch ix (send_updates ch ix invoice (w, p)).1 none
            ≡ open_prefix ch ix w (entries_of ch ix p none))
        × ((i : InvoiceId)
            → i ≢ id invoice
            → entries_of ch ix (send_updates ch ix invoice (w, p)).1 (some i)
              ≡ entries_of ch ix p (some i))
  send_updates_survivors invoice w p d =
      let one : Outcome ch ix invoice (some (id invoice))
          (open_prefix ch ix w (entries_of ch ix p (some (id invoice))))
          (entries_of ch ix p (some (id invoice))) (w, p) (between invoice w p) =
        first_loop invoice w p d in
      let two : Outcome ch ix invoice none
          (open_prefix ch ix (between invoice w p).0 (entries_of ch ix p none))
          (entries_of ch ix p none) (between invoice w p) (finally invoice w p) =
        second_loop invoice w p d in
      rw (send_updates-finally invoice w p) (
        two.others (some (id invoice)) (λ e. cc) ∙ one.subs,
        two.subs ∙ open_prefix_same w (between invoice w p).0 (entries_of ch ix p none) one.closed,
        λ i ne.
            two.others (some i) (λ e. cc)
            ∙ one.others (some i) (λ e. ne (sym (some-injective _ _ e))),
      )
