-- ===== src/Pubsub/Loop.antt =====
-- What one loop of `send_updates` does to the subscribers of its target and to their channels.
use mathlib.Core.List.{append_assoc, append-nil}
use xmrgateway.Prelude.{
  ℕ, zero, suc, ◌+◌, ◌<◌, ◌≡◌, ◌≢◌, refl, sym, ap, ◌∙◌, Bool, true, false, ◌||◌, Option, none, some,
  List, [], ◌∷◌, ◌++◌, nat_eq, length, length-append, get_elem?, if◌then◌else◌, arith, Bool-cases,
  Option-cases, inl, inr, beq_refl, beq_false,
}
use xmrgateway.Std.HashMap.{lookup, lookup-insert, Distinct}
use xmrgateway.Invoice.{InvoiceId, Invoice}
use xmrgateway.Invoice.Order.{invoice_id_eq}
use xmrgateway.External.IndexMap.{IndexMap, last_first, rotate_last, swap_removed}
use xmrgateway.External.IndexMap.Entries.{
  get_elem?-append_none, get_elem?-append_some, length-rotate_last, swap_removed-append,
  rotated-Distinct, remaining-Distinct,
}
use xmrgateway.External.Channel.{Channel}
use xmrgateway.Pubsub.{Publisher, SenderId, get_sender_by_index, remove_sender, send_loop}

module _ {ℓ} {A : Type ℓ} where
  -- A list of so many copies, none of them if the channel is closed.
  abbrev pub copies : Bool → ℕ → A → List A
  copies true n a = []
  copies false zero a = []
  copies false (suc n) a = a ∷ copies false n a

module _ (ch : Channel Invoice) (ix : IndexMap SenderId ch.Sender) where
  abbrev pub State : Type 0
  State = ch.World × Publisher ix.Map

  -- The subscribers that a loop for this target walks over.
  abbrev pub entries_of : Publisher ix.Map → Option InvoiceId → List (SenderId × ch.Sender)
  entries_of p none = ix.entries p.global_subs
  entries_of p (some i) = elim (lookup i p.invoice_subs) [ none ↦ [] | some subs ↦ ix.entries subs ]

  -- How often a channel stands among subscribers.
  abbrev pub count_sender : ch.Sender → List (SenderId × ch.Sender) → ℕ
  count_sender t [] = 0
  count_sender t ((k, s) ∷ m) =
      if ch.sender_eq.beq s t then suc (count_sender t m) else count_sender t m

  get_sender-entries_of :
      (p : Publisher ix.Map) (target : Option InvoiceId) (index : ℕ)
      → get_sender_by_index ch ix p target index ≡ get_elem? (entries_of p target) index
  unfolding get_sender_by_index
  get_sender-entries_of p none index = ix.get_index_lem p.global_subs index
  get_sender-entries_of p (some i) index = elim (Option-cases (lookup i p.invoice_subs)) [
    | inl e ↦ ground arith
    | inr (subs, e) ↦ ground (arith, ix.get_index_lem subs index)
  ]

  entries_of-remove_sender :
      (p : Publisher ix.Map) (target : Option InvoiceId) (k : SenderId)
      → entries_of (remove_sender ch ix p target k) target ≡ swap_removed k (entries_of p target)
  unfolding remove_sender
  entries_of-remove_sender p none k = ix.entries_swap_remove k p.global_subs
  entries_of-remove_sender p (some i) k = elim (Option-cases (lookup i p.invoice_subs)) [
    | inl e ↦ ground arith
    | inr (subs, e) ↦ ground (
      arith,
      lookup-insert i i (ix.swap_remove k subs) p.invoice_subs,
      beq_refl i,
      ix.entries_swap_remove k subs,
    )
  ]

  others-remove_sender :
      (p : Publisher ix.Map) (target other : Option InvoiceId) (k : SenderId)
      → target ≢ other
      → entries_of (remove_sender ch ix p target k) other ≡ entries_of p other
  unfolding remove_sender
  others-remove_sender p none none k h = absurd (h refl)
  others-remove_sender p none (some j) k h = refl
  others-remove_sender p (some i) none k h = ground arith
  others-remove_sender p (some i) (some j) k h = elim (Option-cases (lookup i p.invoice_subs)) [
    | inl e ↦ ground arith
    | inr (subs, e) ↦ ground (
      arith,
      lookup-insert i j (ix.swap_remove k subs) p.invoice_subs,
      beq_false i j (λ q. h (ap some q)),
    )
  ]

  -- One round of the loop that finds a subscriber.
  step_send :
      (n : ℕ) (invoice : Invoice) (target : Option InvoiceId) (index : ℕ) (closed : Bool)
      (w : ch.World) (p : Publisher ix.Map) (k : SenderId) (s : ch.Sender)
      → get_sender_by_index ch ix p target index ≡ some (k, s)
      → send_loop ch ix (suc n) invoice target index closed (w, p) ≡ (
          if closed || ch.is_closed w s
          then send_loop ch ix n invoice target index true
              ((ch.send s invoice w).0, remove_sender ch ix p target k)
          else send_loop ch ix n invoice target (index + 1) false ((ch.send s invoice w).0, p))
  unfolding send_loop
  step_send n invoice target index true w p k s e = rw (e, send_loop)
  step_send n invoice target index false w p k s e = elim (Bool-cases (ch.is_closed w s)) [
    | inl c ↦ rw (e, send_loop, ch.send_result s invoice w, c)
    | inr c ↦ rw (e, send_loop, ch.send_result s invoice w, c)
  ]

  step_end :
      (n : ℕ) (invoice : Invoice) (target : Option InvoiceId) (index : ℕ) (closed : Bool)
      (w : ch.World) (p : Publisher ix.Map)
      → get_sender_by_index ch ix p target index ≡ none
      → send_loop ch ix (suc n) invoice target index closed (w, p) ≡ (w, p)
  unfolding send_loop
  step_end n invoice target index closed w p e = rw (e, send_loop)

  count-rotate_last :
      (t : ch.Sender) (R : List (SenderId × ch.Sender))
      → count_sender t (rotate_last R) ≡ count_sender t R
  count-rotate_last t [] = refl
  count-rotate_last t (x ∷ R) = last_case x R
    where
      last_case :
          (x : SenderId × ch.Sender) (R : List (SenderId × ch.Sender))
          → count_sender t (last_first x R) ≡ count_sender t (x ∷ R)
      last_case x [] = refl
      last_case x (y ∷ R) = ground (arith, last_case y R)

  -- What a loop does: these subscribers stay, each of those got one copy of the invoice unless its
  -- channel is closed, no channel is opened or closed, and no other target's subscribers change.
  pub record Outcome (invoice : Invoice) (target : Option InvoiceId)
      (kept reached : List (SenderId × ch.Sender)) (before after : State) : Type 0 where
    pub subs : entries_of after.1 target ≡ kept
    pub closed : (t : ch.Sender) → ch.is_closed after.0 t ≡ ch.is_closed before.0 t
    pub received :
        (t : ch.Sender)
        → ch.received after.0 t
          ≡ ch.received before.0 t
            ++ copies (ch.is_closed before.0 t) (count_sender t reached) invoice
    pub others : (o : Option InvoiceId) → target ≢ o → entries_of after.1 o ≡ entries_of before.1 o

  -- The subscribers in front of the first one whose channel is closed.
  abbrev pub open_prefix : ch.World → List (SenderId × ch.Sender) → List (SenderId × ch.Sender)
  open_prefix w [] = []
  open_prefix w ((k, s) ∷ R) = if ch.is_closed w s then [] else (k, s) ∷ open_prefix w R

  copies_append :
      (x : Invoice) (c : Bool) (same : Bool) (r : List Invoice) (n : ℕ)
      → (if same then (if c then r else r ++ x ∷ []) else r) ++ copies c n x
        ≡ r ++ copies c (if same then suc n else n) x
  copies_append x true true r n = refl
  copies_append x true false r n = refl
  copies_append x false true r n = append_assoc r (x ∷ []) (copies false n x)
  copies_append x false false r n = refl

  copies_send :
      (x : Invoice) (s t : ch.Sender) (w : ch.World) (n : ℕ)
      → ch.received (ch.send s x w).0 t ++ copies (ch.is_closed (ch.send s x w).0 t) n x
        ≡ ch.received w t ++ copies (ch.is_closed w t) (if ch.sender_eq.beq s t then suc n else n) x
  copies_send x s t w n = elim (Bool-cases (ch.sender_eq.beq s t)) [
    | inl q ↦
        rw
          (
            ch.closed-send s x w t,
            ch.received-send s x w t,
            q,
            ap (ch.is_closed w) ((ch.sender_eq.beq_iff s t).0 q),
          )
          (copies_append x (ch.is_closed w t) true (ch.received w t) n)
    | inr q ↦ rw (ch.closed-send s x w t, ch.received-send s x w t, q)
  ]

  module _ (invoice : Invoice) (target : Option InvoiceId) where
    -- A round that sends and goes on with the rest.
    Outcome-send :
        (kept reached : List (SenderId × ch.Sender)) (k : SenderId) (s : ch.Sender) (w : ch.World)
        (p p' : Publisher ix.Map) {after : State}
        → ((o : Option InvoiceId) → target ≢ o → entries_of p' o ≡ entries_of p o)
        → Outcome invoice target kept reached ((ch.send s invoice w).0, p') after
        → Outcome invoice target kept ((k, s) ∷ reached) (w, p) after
    Outcome-send kept reached k s w p p' {after} same out = record {
      subs = out.subs;
      closed = λ t. out.closed t ∙ ch.closed-send s invoice w t;
      received = λ t. out.received t ∙ copies_send invoice s t w (count_sender t reached);
      others = λ o h. out.others o h ∙ same o h;
    }

    -- With nobody left the loop ends.
    Outcome-end :
        (n : ℕ) (closed : Bool) (w : ch.World) (p : Publisher ix.Map)
        (P : List (SenderId × ch.Sender))
        → entries_of p target ≡ P ++ []
        → Outcome invoice target P []
            (w, p)
            (send_loop ch ix (suc n) invoice target (length P) closed (w, p))
    Outcome-end n closed w p P e =
        rw (step_end n invoice target (length P) closed w p ended) (record {
          subs = e ∙ append-nil P;
          closed = λ t. refl;
          received = λ t. nothing (ch.is_closed w t) (ch.received w t);
          others = λ o h. refl;
        })
      where
        ended : get_sender_by_index ch ix p target (length P) ≡ none
        ended =
            get_sender-entries_of p target (length P)
            ∙ ap (λ l. get_elem? l (length P)) e
            ∙ get_elem?-append_none P

        nothing : (c : Bool) (r : List Invoice) → r ≡ r ++ copies c 0 invoice
        nothing true r = sym (append-nil r)
        nothing false r = sym (append-nil r)

    found_at :
        (p : Publisher ix.Map) (P R : List (SenderId × ch.Sender)) (k : SenderId) (s : ch.Sender)
        → entries_of p target ≡ P ++ (k, s) ∷ R
        → get_sender_by_index ch ix p target (length P) ≡ some (k, s)
    found_at p P R k s e =
        get_sender-entries_of p target (length P)
        ∙ ap (λ l. get_elem? l (length P)) e
        ∙ get_elem?-append_some P R (k, s)

    removed_at :
        (p : Publisher ix.Map) (P R : List (SenderId × ch.Sender)) (k : SenderId) (s : ch.Sender)
        → entries_of p target ≡ P ++ (k, s) ∷ R
        → Distinct (P ++ (k, s) ∷ R)
        → entries_of (remove_sender ch ix p target k) target ≡ P ++ rotate_last R
    removed_at p P R k s e d =
        entries_of-remove_sender p target k ∙ ap (swap_removed k) e ∙ swap_removed-append k s P R d

    Outcome-rotated :
        (kept R : List (SenderId × ch.Sender)) (k : SenderId) (s : ch.Sender) {before after : State}
        → Outcome invoice target kept ((k, s) ∷ rotate_last R) before after
        → Outcome invoice target kept ((k, s) ∷ R) before after
    Outcome-rotated kept R k s {before} out = record {
      subs = out.subs;
      closed = out.closed;
      received = λ t.
          out.received t
          ∙ ap (λ n. ch.received before.0 t ++ copies (ch.is_closed before.0 t) n invoice)
              (ap (λ n. if ch.sender_eq.beq s t then suc n else n) (count-rotate_last t R));
      others = out.others;
    }

    -- Once `closed` is set, the rest of the subscribers are reached and taken away.
    loop_closed :
        (n : ℕ) (w : ch.World) (p : Publisher ix.Map) (P R : List (SenderId × ch.Sender))
        → length R < n
        → entries_of p target ≡ P ++ R
        → Distinct (P ++ R)
        → Outcome invoice target P R
            (w, p)
            (send_loop ch ix n invoice target (length P) true (w, p))
    loop_closed zero w p P R h e d = elim h [ ]
    loop_closed (suc n) w p P [] h e d = Outcome-end n true w p P e
    loop_closed (suc n) w p P ((k, s) ∷ R) h e d =
        rw (step_send n invoice target (length P) true w p k s (found_at p P R k s e)) (
          Outcome-rotated P R k s (
            Outcome-send P (rotate_last R) k s w p (remove_sender ch ix p target k)
              (λ o ne. others-remove_sender p target o k ne)
              (loop_closed n (ch.send s invoice w).0 (remove_sender ch ix p target k) P
                (rotate_last R) (omega (arith, length-rotate_last R)) (removed_at p P R k s e d)
                (rotated-Distinct k s P R d))))

    open_prefix-send :
        (s : ch.Sender) (w : ch.World) (R : List (SenderId × ch.Sender))
        → open_prefix (ch.send s invoice w).0 R ≡ open_prefix w R
    open_prefix-send s w [] = refl
    open_prefix-send s w ((j, t) ∷ R) = rw (ch.closed-send s invoice w t, open_prefix-send s w R)

    -- Until a closed channel is met, the loop steps over the subscribers that it reaches.
    pub loop_open :
        (n : ℕ) (w : ch.World) (p : Publisher ix.Map) (P R : List (SenderId × ch.Sender))
        → length R < n
        → entries_of p target ≡ P ++ R
        → Distinct (P ++ R)
        → Outcome invoice target
            (P ++ open_prefix w R)
            R
            (w, p)
            (send_loop ch ix n invoice target (length P) false (w, p))
    loop_open zero w p P R h e d = elim h [ ]
    loop_open (suc n) w p P [] h e d = rw (append-nil P) (Outcome-end n false w p P e)
    loop_open (suc n) w p P ((k, s) ∷ R) h e d = elim (Bool-cases (ch.is_closed w s)) [
      | inl c ↦
          rw
            (
              step_send n invoice target (length P) false w p k s (found_at p P R k s e),
              c,
              append-nil P,
            )
            (Outcome-rotated P R k s (
              Outcome-send P (rotate_last R) k s w p (remove_sender ch ix p target k)
                (λ o ne. others-remove_sender p target o k ne)
                (loop_closed n (ch.send s invoice w).0 (remove_sender ch ix p target k) P
                  (rotate_last R) (omega (arith, length-rotate_last R)) (removed_at p P R k s e d)
                  (rotated-Distinct k s P R d))))
      | inr c ↦
          let w' : ch.World = (ch.send s invoice w).0 in
          let P' : List (SenderId × ch.Sender) = P ++ (k, s) ∷ [] in
          let kept : P' ++ open_prefix w' R ≡ P ++ (k, s) ∷ open_prefix w R =
            append_assoc P ((k, s) ∷ []) (open_prefix w' R)
            ∙ ap (λ l. P ++ (k, s) ∷ l) (open_prefix-send s w R) in
          let next : length P' ≡ length P + 1 = length-append P ((k, s) ∷ []) in
          rw
            (
              step_send n invoice target (length P) false w p k s (found_at p P R k s e),
              c,
              ← kept,
              ← next,
            )
            (Outcome-send (P' ++ open_prefix w' R) R k s w p p (λ o ne. refl)
              (loop_open n w' p P' R (omega arith) (e ∙ sym (append_assoc P ((k, s) ∷ []) R))
                (remaining-Distinct P (k, s) R d)))
    ]
