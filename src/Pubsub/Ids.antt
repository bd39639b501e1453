-- ===== src/Pubsub/Ids.antt =====
-- The publisher over its life: the calls that change it, and the sender ids of its subscribers.
use mathlib.Core.Option.{some-injective}
use xmrgateway.Prelude.{
  ◌≡◌, refl, sym, subst, Option, none, some, List, [], ◌∷◌, nat_eq, if◌then◌else◌, arith,
  Bool-cases, Option-cases, inl, inr, beq_true, ne_of_beq, ◌==◌,
}
use xmrgateway.Std.HashMap.{lookup, insert, lookup-insert, lookup-remove, Distinct, insert-Distinct}
use xmrgateway.Invoice.{InvoiceId, Invoice, id}
use xmrgateway.Invoice.Order.{invoice_id_eq}
use xmrgateway.External.IndexMap.{IndexMap}
use xmrgateway.External.Channel.{Channel}
use xmrgateway.Pubsub.{
  Publisher, SenderId, publisher_new, subscribe, subscribe_all, insert_invoice, remove_invoice,
  send_updates,
}
use xmrgateway.Pubsub.Loop.{entries_of, open_prefix}
use xmrgateway.Pubsub.Delivery.{HasDistinctIds, send_updates_survivors}

module _ (ch : Channel Invoice) (ix : IndexMap SenderId ch.Sender) where
  -- The calls that change a publisher.
  pub data Step (p : Publisher ix.Map) : Publisher ix.Map → Type 0 where
    subscribed :
        (i : InvoiceId) (k : SenderId) (tx : ch.Sender) {q : Publisher ix.Map}
        → subscribe ch ix i k tx p ≡ some q
        → Step p q
    subscribed_all : (k : SenderId) (tx : ch.Sender) → Step p (subscribe_all ch ix k tx p)
    added : (i : InvoiceId) → Step p (insert_invoice ch ix i p)
    removed : (i : InvoiceId) → Step p (remove_invoice ch ix i p)
    sent : (invoice : Invoice) (w : ch.World) → Step p (send_updates ch ix invoice (w, p)).1

  pub data Reachable : Publisher ix.Map → Type 0 where
    new : Reachable (publisher_new ch ix)
    step : {p q : Publisher ix.Map} → Reachable p → Step p q → Reachable q

  abbrev SubsDistinct : Option ix.Map → Type 0
  SubsDistinct subs = Distinct (elim subs [ none ↦ [] | some m ↦ ix.entries m ])

  if_distinct :
      (i j : InvoiceId) (o : Option ix.Map) (p : Publisher ix.Map)
      → SubsDistinct o
      → SubsDistinct (lookup j p.invoice_subs)
      → SubsDistinct (if i == j then o else lookup j p.invoice_subs)
  if_distinct i j o p a b = elim (Bool-cases (i == j)) [ inl e ↦ rw e a | inr e ↦ rw e b ]

  empty-Distinct : Distinct (ix.entries ix.empty)
  empty-Distinct = rw ix.entries_empty tt

  inserted-Distinct :
      (k : SenderId) (tx : ch.Sender) (m : ix.Map)
      → Distinct (ix.entries m)
      → Distinct (ix.entries (ix.insert_entry k tx m))
  inserted-Distinct k tx m d = rw (ix.entries_insert k tx m) (insert-Distinct k tx (ix.entries m) d)

  subscribe-HasDistinctIds :
      (i : InvoiceId) (k : SenderId) (tx : ch.Sender) (p : Publisher ix.Map) {q : Publisher ix.Map}
      → subscribe ch ix i k tx p ≡ some q
      → HasDistinctIds ch ix p
      → HasDistinctIds ch ix q
  unfolding subscribe
  subscribe-HasDistinctIds i k tx p {q} e d = elim (Option-cases (lookup i p.invoice_subs)) [
    | inl absent ↦ absurd (ground arith)
    | inr (subs, found) ↦
        subst (HasDistinctIds ch ix) (some-injective (after subs) q (ground arith))
          (after_distinct subs (subst SubsDistinct found (d (some i))))
  ]
    where
      after : ix.Map → Publisher ix.Map
      after subs = record p { invoice_subs = insert i (ix.insert_entry k tx subs) p.invoice_subs }

      after_distinct :
          (subs : ix.Map) → Distinct (ix.entries subs) → HasDistinctIds ch ix (after subs)
      after_distinct subs h none = d none
      after_distinct subs h (some j) =
          subst SubsDistinct (sym (lookup-insert i j (ix.insert_entry k tx subs) p.invoice_subs)) (
            if_distinct i j (some (ix.insert_entry k tx subs)) p (inserted-Distinct k tx subs h)
              (d (some j)))

  prefix_lookup :
      (j : SenderId) (w : ch.World) (E : List (SenderId × ch.Sender))
      → lookup j E ≡ none
      → lookup j (open_prefix ch ix w E) ≡ none
  unfolding lookup
  prefix_lookup j w [] h = refl
  prefix_lookup j w ((k, s) ∷ E) h = elim (Bool-cases (ch.is_closed w s)) [
    | inl c ↦ rw c
    | inr c ↦ rw c (ground (arith, prefix_lookup j w E))
  ]

  prefix-Distinct :
      (w : ch.World) (E : List (SenderId × ch.Sender))
      → Distinct E
      → Distinct (open_prefix ch ix w E)
  prefix-Distinct w [] d = tt
  prefix-Distinct w ((k, s) ∷ E) d = elim (Bool-cases (ch.is_closed w s)) [
    | inl c ↦ subst (λ b. Distinct (if b then [] else (k, s) ∷ open_prefix ch ix w E)) (sym c) tt
    | inr c ↦
        subst (λ b. Distinct (if b then [] else (k, s) ∷ open_prefix ch ix w E)) (sym c)
          (prefix_lookup k w E d.0, prefix-Distinct w E d.1)
  ]

  send_updates-HasDistinctIds :
      (invoice : Invoice) (w : ch.World) (p : Publisher ix.Map)
      → HasDistinctIds ch ix p
      → HasDistinctIds ch ix (send_updates ch ix invoice (w, p)).1
  send_updates-HasDistinctIds invoice w p d none =
      subst Distinct (sym (send_updates_survivors ch ix invoice w p d).1)
        (prefix-Distinct w (entries_of ch ix p none) (d none))
  send_updates-HasDistinctIds invoice w p d (some i) = elim (Bool-cases (i == id invoice)) [
    | inl e ↦
        subst (λ j. Distinct (entries_of ch ix (send_updates ch ix invoice (w, p)).1 (some j)))
          (sym (beq_true i (id invoice) e))
          (subst Distinct (sym (send_updates_survivors ch ix invoice w p d).0)
            (prefix-Distinct w (entries_of ch ix p (some (id invoice))) (d (some (id invoice)))))
    | inr e ↦
        subst Distinct
          (sym ((send_updates_survivors ch ix invoice w p d).2 i (ne_of_beq i (id invoice) e)))
          (d (some i))
  ]

  Step-HasDistinctIds :
      {p q : Publisher ix.Map} → Step p q → HasDistinctIds ch ix p → HasDistinctIds ch ix q
  unfolding subscribe_all insert_invoice remove_invoice
  Step-HasDistinctIds {p} (subscribed i k tx e) d = subscribe-HasDistinctIds i k tx p e d
  Step-HasDistinctIds {p} (subscribed_all k tx) d = λ target. all_case target
    where
      all_case :
          (target : Option InvoiceId)
          → Distinct (entries_of ch ix (subscribe_all ch ix k tx p) target)
      all_case none = inserted-Distinct k tx p.global_subs (d none)
      all_case (some i) = d (some i)
  Step-HasDistinctIds {p} (added i) d = λ target. add_case target
    where
      add_case :
          (target : Option InvoiceId)
          → Distinct (entries_of ch ix (insert_invoice ch ix i p) target)
      add_case none = d none
      add_case (some j) =
          subst SubsDistinct (sym (lookup-insert i j ix.empty p.invoice_subs))
            (if_distinct i j (some ix.empty) p empty-Distinct (d (some j)))
  Step-HasDistinctIds {p} (removed i) d = λ target. remove_case target
    where
      remove_case :
          (target : Option InvoiceId)
          → Distinct (entries_of ch ix (remove_invoice ch ix i p) target)
      remove_case none = d none
      remove_case (some j) =
          subst SubsDistinct (sym (lookup-remove i j p.invoice_subs))
            (if_distinct i j none p tt (d (some j)))
  Step-HasDistinctIds {p} (sent invoice w) d = send_updates-HasDistinctIds invoice w p d

  -- In every publisher that the calls can lead to, each target's subscribers have distinct sender
  -- ids.
  pub Reachable-HasDistinctIds : {p : Publisher ix.Map} → Reachable p → HasDistinctIds ch ix p
  Reachable-HasDistinctIds new = λ target. new_case target
    where
      new_case :
          (target : Option InvoiceId) → Distinct (entries_of ch ix (publisher_new ch ix) target)
      new_case none = unfold publisher_new in empty-Distinct
      new_case (some i) = unfold publisher_new lookup in tt
  Reachable-HasDistinctIds (step r s) = Step-HasDistinctIds s (Reachable-HasDistinctIds r)
