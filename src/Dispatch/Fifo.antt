-- ===== src/Dispatch/Fifo.antt =====
-- src/YMDispatch.c: entries are taken in the order in which they were added, and a thread that was woken
-- finds one, however the threads of a queue take turns.
use yammer.Prelude.{
  ℕ, ◌+◌, ◌-◌, ◌<◌, ◌≡◌, refl, ap, ◌∙◌, sym, subst, List, [], ◌∷◌, ◌++◌, length, length-append, ok,
  >>=-eq-ok, Bool, true, false, if◌then◌else◌, arith,
}
use mathlib.Core.List.{append_assoc}
use yammer.Dispatch.{
  Entry, Queue, new_queue, add_entry, signal, wait, first_entry, take_entry,
  check_expand_global_queue,
}

-- How a queue came about: what was added to it and what was taken from it, in order. The threads may
-- grow at any time.
pub data Run : List Entry → List Entry → Queue → Type 0 where
  start : (is_global : Bool) (threads : List Bool) → Run [] [] (new_queue is_global threads)
  expand :
      {added taken : List Entry} {q : Queue} (default_threads : ℕ)
      → Run added taken q
      → Run added taken (check_expand_global_queue default_threads q)
  add :
      {added taken : List Entry} {q : Queue} (e : Entry)
      → Run added taken q
      → Run (added ++ (e ∷ [])) taken (add_entry q e)
  signaled :
      {added taken : List Entry} {q : Queue}
      → 0 < q.unsignaled
      → Run added taken q
      → Run added taken (signal q)
  waited :
      {added taken : List Entry} {q : Queue}
      → 0 < q.sem
      → Run added taken q
      → Run added taken (wait q)
  took :
      {added taken : List Entry} {q q' : Queue} {e : Entry}
      → 0 < q.woken
      → take_entry q ≡ ok (e, q')
      → Run added taken q
      → Run added (taken ++ (e ∷ [])) q'

-- No entry is lost, and each of them has a signal that is on its way.
pub record IsInOrder (added taken : List Entry) (q : Queue) : Type 0 where
  pub in_order : taken ++ q.stack ≡ added
  pub all_signaled : q.unsignaled + q.sem + q.woken ≡ length q.stack

first_entry_lem :
    (stack : List Entry) (e : Entry) (es : List Entry)
    → first_entry stack ≡ ok (e, es)
    → stack ≡ e ∷ es
first_entry_lem [] e es ran = cc
first_entry_lem (x ∷ xs) e es ran = cc

some_entry :
    (stack : List Entry) → 0 < length stack → (e : Entry) × (es : List Entry) × (stack ≡ e ∷ es)
some_entry [] h = absurd (omega arith)
some_entry (e ∷ es) h = (e, es, refl)

either-IsInOrder :
    (b : Bool) (added taken : List Entry) (q : Queue) (threads : List Bool)
    → IsInOrder added taken q
    → IsInOrder added taken (if b then q else record q { threads = threads })
either-IsInOrder true added taken q threads i = i
either-IsInOrder false added taken q threads i = record {
  in_order = i.in_order;
  all_signaled = i.all_signaled;
}

take_entry-IsInOrder :
    (added taken : List Entry) (q q' : Queue) (e : Entry)
    → 0 < q.woken
    → take_entry q ≡ ok (e, q')
    → IsInOrder added taken q
    → IsInOrder added (taken ++ (e ∷ [])) q'
unfolding take_entry
take_entry-IsInOrder added taken q q' e woken ran i =
    let ((e1, es), first, rest) = >>=-eq-ok (first_entry q.stack) _ ran in
    let stack_is = first_entry_lem q.stack e1 es first in
    let q1 : Queue = record q { stack = es; woken = q.woken - 1 } in
    let left_is : q1 ≡ q' = cc in
    let same : e1 ≡ e = cc in
    subst (IsInOrder added (taken ++ (e ∷ []))) left_is (record {
      in_order =
          append_assoc taken (e ∷ []) es
          ∙ ap (λ x. taken ++ (x ∷ es)) (sym same)
          ∙ ap (λ l. taken ++ l) (sym stack_is)
          ∙ i.in_order;
      all_signaled = omega (arith, i.all_signaled, ap length stack_is);
    })

Run-IsInOrder : {added taken : List Entry} {q : Queue} → Run added taken q → IsInOrder added taken q
unfolding new_queue add_entry signal wait check_expand_global_queue
Run-IsInOrder (start is_global threads) = record { in_order = refl; all_signaled = refl }
Run-IsInOrder {added} {taken} (expand {q = q0} n r) =
    either-IsInOrder _ added taken q0 (q0.threads ++ (false ∷ [])) (Run-IsInOrder r)
Run-IsInOrder (add {added = before} {taken = from} {q = q0} e r) =
    let i = Run-IsInOrder r in
    record {
      in_order = sym (append_assoc from q0.stack (e ∷ [])) ∙ ap (λ l. l ++ (e ∷ [])) i.in_order;
      all_signaled = omega (arith, i.all_signaled, length-append q0.stack (e ∷ []));
    }
Run-IsInOrder (signaled h r) =
    let i = Run-IsInOrder r in
    record { in_order = i.in_order; all_signaled = omega (arith, h, i.all_signaled) }
Run-IsInOrder (waited h r) =
    let i = Run-IsInOrder r in
    record { in_order = i.in_order; all_signaled = omega (arith, h, i.all_signaled) }
Run-IsInOrder (took {added = before} {taken = from} {q = q0} {q' = q1} {e = e0} h ran r) =
    take_entry-IsInOrder before from q0 q1 e0 h ran (Run-IsInOrder r)

-- However the threads of a queue take turns, what they took so far and what still waits are together what
-- was added, in the order in which it was added.
pub Run_in_order :
    (added taken : List Entry) (q : Queue) → Run added taken q → taken ++ q.stack ≡ added
Run_in_order added taken q r = (Run-IsInOrder r).in_order

-- A thread of a queue that its semaphore has woken finds an entry, however many threads there are and however
-- they take turns, and takes the one that was added first of those not yet taken.
pub woken_takes_first :
    (added taken : List Entry) (q : Queue)
    → Run added taken q
    → 0 < q.woken
    → (e : Entry) × (later : List Entry) × (q' : Queue) × (take_entry q ≡ ok (e, q'))
      × (taken ++ (e ∷ later) ≡ added)
unfolding take_entry
woken_takes_first added taken q r woken =
    let i = Run-IsInOrder r in
    let (e, es, stack_is) = some_entry q.stack (omega (arith, i.all_signaled)) in
    (
      e,
      es,
      record q { stack = es; woken = q.woken - 1 },
      simp stack_is,
      ap (λ l. taken ++ l) (sym stack_is) ∙ i.in_order,
    )
