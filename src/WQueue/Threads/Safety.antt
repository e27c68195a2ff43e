-- ===== src/WQueue/Threads/Safety.antt =====
-- The threads of src/wqueue.h in every interleaving: the mutex, `front`, and the order of the
-- items.
use ipop_tincan.Prelude.{
  ℕ, ◌≡◌, refl, ap, ◌≢◌, none, some, List, [], ◌∷◌, ◌++◌, Bool, true, false, arith, append_assoc,
}
use ipop_tincan.WQueue.Threads.{
  Pc, idle, enter_add, enter_remove, enter_size, pushing, signalling, testing, taking, measuring,
  leaving, waiting, System, go, Step, begin_add, begin_remove, begin_size, lock_add, lock_remove,
  lock_size, push, signal, wait, wake, ready, take_front, measure, unlock, start, Reach, here, next,
}

module _ {ℓ} {A : Type ℓ} where
  abbrev pub holds : Pc A → Bool
  holds (pushing a) = true
  holds signalling = true
  holds testing = true
  holds taking = true
  holds measuring = true
  holds leaving = true
  holds _ = false

  -- A thread inside its critical section owns the mutex; one at `front` finds an item; what was
  -- pushed is what was popped followed by what is queued.
  pub record IsSafe (s : System A) : Type ℓ where
    pub owner : (i : ℕ) → holds (s.pc i) ≡ true → s.mutex ≡ some i
    pub stocked : (i : ℕ) → s.pc i ≡ taking → s.queue ≢ []
    pub fifo : s.added ≡ s.removed ++ s.queue

  start-IsSafe : IsSafe start
  start-IsSafe = record {
    owner = λ i h. absurd (cc h);
    stocked = λ i h. absurd (cc h);
    fifo = refl;
  }

  -- A thread that stays on its side of the mutex, and goes to `front` only when there is an item.
  IsSafe-move :
      (s : System A) (i : ℕ) (p : Pc A)
      → holds p ≡ holds (s.pc i)
      → (p ≡ taking → s.queue ≢ [])
      → IsSafe s
      → IsSafe (record s { pc = go s.pc i p })
  IsSafe-move s i p same some_item v = record {
    owner = λ j h. ground (arith, v.owner j, v.owner i);
    stocked = λ j h k. ground (arith, v.stocked j, some_item);
    fifo = v.fifo;
  }

  IsSafe-lock :
      (s : System A) (i : ℕ) (p : Pc A)
      → s.mutex ≡ none
      → p ≢ taking
      → IsSafe s
      → IsSafe (record s { mutex = some i; pc = go s.pc i p })
  IsSafe-lock s i p free other v = record {
    owner = λ j h. ground (arith, v.owner j);
    stocked = λ j h k. ground (arith, v.stocked j);
    fifo = v.fifo;
  }

  IsSafe-unlock :
      (s : System A) (i : ℕ) (p : Pc A)
      → holds (s.pc i) ≡ true
      → holds p ≡ false
      → IsSafe s
      → IsSafe (record s { mutex = none; pc = go s.pc i p })
  IsSafe-unlock s i p held out v = record {
    owner = λ j h. ground (arith, v.owner j, v.owner i held);
    stocked = λ j h k. ground (arith, v.stocked j);
    fifo = v.fifo;
  }

  -- The queue changes under the mutex, so no other thread stands at `front`.
  IsSafe-change :
      (s : System A) (i : ℕ) (p : Pc A) (queue added removed : List A)
      → holds (s.pc i) ≡ true
      → holds p ≡ true
      → p ≢ taking
      → added ≡ removed ++ queue
      → IsSafe s
      → IsSafe (record s { queue = queue; pc = go s.pc i p; added = added; removed = removed })
  IsSafe-change s i p queue added removed held holding other f v = record {
    owner = λ j h. ground (arith, v.owner j, v.owner i held);
    stocked = λ j h k. ground (arith, v.owner j, v.owner i held);
    fifo = f;
  }

  Step-IsSafe : {s t : System A} {i : ℕ} → Step s i t → IsSafe s → IsSafe t
  Step-IsSafe {s} {t} {i} (begin_add a p e) v =
      rw e (IsSafe-move s i (enter_add a) (cc (ap holds p)) (λ q. cc) v)
  Step-IsSafe {s} {t} {i} (begin_remove p e) v =
      rw e (IsSafe-move s i enter_remove (cc (ap holds p)) (λ q. cc) v)
  Step-IsSafe {s} {t} {i} (begin_size p e) v =
      rw e (IsSafe-move s i enter_size (cc (ap holds p)) (λ q. cc) v)
  Step-IsSafe {s} {t} {i} (lock_add a p m e) v = rw e (IsSafe-lock s i (pushing a) m (λ q. cc) v)
  Step-IsSafe {s} {t} {i} (lock_remove p m e) v = rw e (IsSafe-lock s i testing m (λ q. cc) v)
  Step-IsSafe {s} {t} {i} (lock_size p m e) v = rw e (IsSafe-lock s i measuring m (λ q. cc) v)
  Step-IsSafe {s} {t} {i} (push a p e) v = rw e (
      IsSafe-change s i signalling (s.queue ++ a ∷ []) (s.added ++ a ∷ []) s.removed (ap holds p)
        refl (λ q. cc) (rw v.fifo (append_assoc s.removed s.queue (a ∷ []))) v)
  Step-IsSafe {s} {t} {i} (signal p e) v =
      rw e (IsSafe-move s i leaving (cc (ap holds p)) (λ q. cc) v)
  Step-IsSafe {s} {t} {i} (wait p q e) v = rw e (IsSafe-unlock s i waiting (ap holds p) refl v)
  Step-IsSafe {s} {t} {i} (wake p m e) v = rw e (IsSafe-lock s i testing m (λ q. cc) v)
  Step-IsSafe {s} {t} {i} (ready p q e) v =
      rw e (IsSafe-move s i taking (cc (ap holds p)) (λ r. q) v)
  Step-IsSafe {s} {t} {i} (take_front a rest p q e) v = rw e (
      IsSafe-change s i leaving rest s.added (s.removed ++ a ∷ []) (ap holds p) refl (λ r. cc)
        (cc (v.fifo, q, append_assoc s.removed (a ∷ []) rest)) v)
  Step-IsSafe {s} {t} {i} (measure p e) v =
      rw e (IsSafe-move s i leaving (cc (ap holds p)) (λ q. cc) v)
  Step-IsSafe {s} {t} {i} (unlock p e) v = rw e (IsSafe-unlock s i idle (ap holds p) refl v)

  -- In every state that any threads can reach: a thread inside add, remove or size owns the mutex,
  -- a thread at `front` finds an item, and the items pushed so far are, in this order, those popped
  -- so far and those in the queue.
  pub Reach-IsSafe : {s : System A} → Reach s → IsSafe s
  Reach-IsSafe here = start-IsSafe
  Reach-IsSafe (next i r st) = Step-IsSafe st (Reach-IsSafe r)

  -- Two threads are never inside at once.
  pub mutual_exclusion :
      {s : System A} (i j : ℕ) → Reach s → holds (s.pc i) ≡ true → holds (s.pc j) ≡ true → i ≡ j
  mutual_exclusion {s} i j r hi hj =
      let v = Reach-IsSafe r in ground (arith, v.owner i hi, v.owner j hj)
