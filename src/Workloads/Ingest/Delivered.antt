-- ===== src/Workloads/Ingest/Delivered.antt =====
-- What becomes of the messages of telemetry-ingest, in any interleaving of its two threads.
use mathlib.Core.Path.{subst}
use abb_accelerator_aiops.Prelude.{
  ◌+◌, ◌≤◌, ◌≡◌, refl, ap, sym, ◌∙◌, Bool, true, false, List, [], ◌∷◌, ◌++◌, length, length-append,
  append-nil, append_assoc, arith, Bool-cases, inl, inr, ltb,
}
use abb_accelerator_aiops.Prelude.Choice.{count}
use abb_accelerator_aiops.Workloads.Ingest.{
  Row, Ingest, idle, queue_max, batch_max, is_full, on_msg, take_from, take_row, commit, reconnect,
}

module _ {T : Type 0} where
  -- A run: the messages that came, those that were lost, and the state.
  pub data Run : List (Row T) → List (Row T) → Ingest T → Type 0 where
    begun : Run [] [] idle
    queued :
        {came lost : List (Row T)} {s : Ingest T} (m : Row T)
        → is_full s ≡ false
        → Run came lost s
        → Run (came ++ m ∷ []) lost (on_msg m s)
    -- the queue is full
    dropped :
        {came lost : List (Row T)} {s : Ingest T} (m : Row T)
        → is_full s ≡ true
        → Run came lost s
        → Run (came ++ m ∷ []) (lost ++ m ∷ []) (on_msg m s)
    taken : {came lost : List (Row T)} {s : Ingest T} → Run came lost s → Run came lost (take_row s)
    written : {came lost : List (Row T)} {s : Ingest T} → Run came lost s → Run came lost (commit s)
    -- the database fails under a batch
    broken :
        {came lost : List (Row T)} {s : Ingest T}
        → Run came lost s
        → Run came (lost ++ s.batch) (reconnect s)

  -- The rows that are stored, in the writer's hands or in the queue, in this order.
  abbrev pub held : Ingest T → List (Row T)
  held s = s.stored ++ (s.batch ++ s.queue)

  -- The first list is the second without some of its elements.
  pub data Sub : List (Row T) → List (Row T) → Type 0 where
    nil : Sub [] []
    keep : {xs ys : List (Row T)} (x : Row T) → Sub xs ys → Sub (x ∷ xs) (x ∷ ys)
    skip : {xs ys : List (Row T)} (y : Row T) → Sub xs ys → Sub xs (y ∷ ys)

  Sub-refl : (xs : List (Row T)) → Sub xs xs
  Sub-refl [] = nil
  Sub-refl (x ∷ xs) = keep x (Sub-refl xs)

  Sub-append :
      {xs ys : List (Row T)} (zs ws : List (Row T))
      → Sub xs ys
      → Sub zs ws
      → Sub (xs ++ zs) (ys ++ ws)
  Sub-append zs ws nil h = h
  Sub-append zs ws (keep x s) h = keep x (Sub-append zs ws s h)
  Sub-append zs ws (skip y s) h = skip y (Sub-append zs ws s h)

  Sub-nil : (xs : List (Row T)) → Sub [] xs
  Sub-nil [] = nil
  Sub-nil (x ∷ xs) = skip x (Sub-nil xs)

  Sub-trans : {ys zs : List (Row T)} → Sub ys zs → {xs : List (Row T)} → Sub xs ys → Sub xs zs
  Sub-trans nil s = s
  Sub-trans (keep x t) (keep _ s) = keep x (Sub-trans t s)
  Sub-trans (keep x t) (skip _ s) = skip x (Sub-trans t s)
  Sub-trans (skip y t) s = skip y (Sub-trans t s)

  -- A full account of the messages: the bounds, the order, and each message in one place.
  pub record IsAccounted (came lost : List (Row T)) (s : Ingest T) : Type 0 where
    pub queue_bound : length s.queue ≤ queue_max
    pub batch_bound : length s.batch ≤ batch_max
    pub inserted : s.inserted ≡ length s.stored
    pub order : Sub (held s) came
    pub balance : (q : Row T → Bool) → count q came ≡ count q (held s) + count q lost

  count-append :
      (q : Row T → Bool) (xs ys : List (Row T)) → count q (xs ++ ys) ≡ count q xs + count q ys
  count-append q [] ys = omega arith
  count-append q (x ∷ xs) ys = ground (arith, count-append q xs ys)

  count-held :
      (q : Row T → Bool) (s : Ingest T)
      → count q (held s) ≡ count q s.stored + (count q s.batch + count q s.queue)
  count-held q s =
      ground (arith, count-append q s.stored (s.batch ++ s.queue), count-append q s.batch s.queue)

  on_msg-IsAccounted :
      (came lost : List (Row T)) (s : Ingest T) (m : Row T)
      → is_full s ≡ false
      → IsAccounted came lost s
      → IsAccounted (came ++ m ∷ []) lost (on_msg m s)
  unfolding on_msg
  on_msg-IsAccounted came lost s m e a =
      let s' = record s { queue = s.queue ++ m ∷ [] } in
      let same : held s ++ m ∷ [] ≡ held s' =
        append_assoc s.stored (s.batch ++ s.queue) (m ∷ [])
        ∙ ap (λ l. s.stored ++ l) (append_assoc s.batch s.queue (m ∷ [])) in
      rw e (record {
        queue_bound = ground (arith, length-append s.queue (m ∷ []), e);
        batch_bound = a.batch_bound;
        inserted = a.inserted;
        order =
            subst (λ l. Sub l (came ++ m ∷ [])) same
              (Sub-append (m ∷ []) (m ∷ []) a.order (Sub-refl (m ∷ [])));
        balance = λ q. ground (
          arith,
          count-append q came (m ∷ []),
          a.balance q,
          count-append q (held s) (m ∷ []),
          ap (count q) same,
        );
      })

  drop-IsAccounted :
      (came lost : List (Row T)) (s : Ingest T) (m : Row T)
      → is_full s ≡ true
      → IsAccounted came lost s
      → IsAccounted (came ++ m ∷ []) (lost ++ m ∷ []) (on_msg m s)
  unfolding on_msg
  drop-IsAccounted came lost s m e a = rw e (record {
    queue_bound = a.queue_bound;
    batch_bound = a.batch_bound;
    inserted = a.inserted;
    order =
        subst (λ l. Sub l (came ++ m ∷ [])) (append-nil (held s))
          (Sub-append [] (m ∷ []) a.order (Sub-nil (m ∷ [])));
    balance = λ q.
        ground (arith, count-append q came (m ∷ []), count-append q lost (m ∷ []), a.balance q);
  })

  take_from-IsAccounted :
      (came lost : List (Row T)) (s : Ingest T) (queue : List (Row T))
      → s.queue ≡ queue
      → IsAccounted came lost s
      → IsAccounted came lost (take_from s queue)
  unfolding take_from
  take_from-IsAccounted came lost s [] e a = a
  take_from-IsAccounted came lost s (m ∷ queue) e a =
      elim (Bool-cases (ltb (length s.batch) batch_max)) [
        | inr b ↦ rw b a
        | inl b ↦
            let same : held s ≡ s.stored ++ ((s.batch ++ m ∷ []) ++ queue) =
              ap (λ l. s.stored ++ (s.batch ++ l)) e
              ∙ ap (λ l. s.stored ++ l) (sym (append_assoc s.batch (m ∷ []) queue)) in
            rw b (record {
              queue_bound = ground (arith, ap length e, a.queue_bound);
              batch_bound = ground (arith, length-append s.batch (m ∷ []), b);
              inserted = a.inserted;
              order = subst (λ l. Sub l came) same a.order;
              balance = λ q. ground (arith, a.balance q, ap (count q) same);
            })
      ]

  commit-IsAccounted :
      (came lost : List (Row T)) (s : Ingest T)
      → IsAccounted came lost s
      → IsAccounted came lost (commit s)
  unfolding commit
  commit-IsAccounted came lost s a =
      let same : held s ≡ (s.stored ++ s.batch) ++ s.queue =
        sym (append_assoc s.stored s.batch s.queue) in
      record {
        queue_bound = a.queue_bound;
        batch_bound = omega arith;
        inserted = ground (arith, length-append s.stored s.batch, a.inserted);
        order = subst (λ l. Sub l came) same a.order;
        balance = λ q. ground (arith, a.balance q, ap (count q) same);
      }

  reconnect-IsAccounted :
      (came lost : List (Row T)) (s : Ingest T)
      → IsAccounted came lost s
      → IsAccounted came (lost ++ s.batch) (reconnect s)
  unfolding reconnect
  reconnect-IsAccounted came lost s a =
      let fewer : Sub (s.stored ++ s.queue) (held s) =
        Sub-append s.queue (s.batch ++ s.queue) (Sub-refl s.stored)
          (Sub-append s.queue s.queue (Sub-nil s.batch) (Sub-refl s.queue)) in
      record {
        queue_bound = a.queue_bound;
        batch_bound = omega arith;
        inserted = a.inserted;
        order = Sub-trans a.order fewer;
        balance = λ q. ground (
          arith,
          a.balance q,
          count-append q lost s.batch,
          count-held q s,
          count-append q s.stored s.queue,
        );
      }

  -- In any interleaving of arriving messages, taken rows, commits, and failures of the database
  -- before it has stored a batch: the queue has at most 50000 rows and the batch at most 500, the
  -- counter is the number of stored rows, the rows that are stored, in the batch and in the queue
  -- stand in the order in which they came, and for any test of rows, as many came as are stored,
  -- in the batch, in the queue or lost.
  pub Run-IsAccounted :
      {came lost : List (Row T)} {s : Ingest T} → Run came lost s → IsAccounted came lost s
  Run-IsAccounted begun = record {
    queue_bound = omega arith;
    batch_bound = omega arith;
    inserted = refl;
    order = nil;
    balance = λ q. refl;
  }
  Run-IsAccounted (queued {came} {lost} {s} m e r) =
      on_msg-IsAccounted came lost s m e (Run-IsAccounted r)
  Run-IsAccounted (dropped {came} {lost} {s} m e r) =
      drop-IsAccounted came lost s m e (Run-IsAccounted r)
  Run-IsAccounted (taken {came} {lost} {s} r) =
      take_from-IsAccounted came lost s s.queue refl (Run-IsAccounted r)
  Run-IsAccounted (written {came} {lost} {s} r) = commit-IsAccounted came lost s (Run-IsAccounted r)
  Run-IsAccounted (broken {came} {lost} {s} r) =
      reconnect-IsAccounted came lost s (Run-IsAccounted r)
