-- ===== src/WQueue/Threads.antt =====
-- src/wqueue.h, one pthread call at a time: any number of threads run `add`, `remove` and `size`
-- on one queue in any order. `pthread_cond_wait` may return without a signal, as POSIX allows, so a
-- waiting thread may ask for the mutex at any time and no step depends on the signals.
pub mod Safety
use ipop_tincan.Prelude.{
  ℕ, ◌≡◌, Option, none, some, List, [], ◌∷◌, ◌++◌, ◌≢◌, nat_beq, if◌then◌else◌,
}

-- Where a thread stands.
pub data Pc {ℓ} (A : Type ℓ) : Type ℓ where
  idle : Pc A
  -- wants the mutex for add, remove, size
  enter_add : A → Pc A
  enter_remove : Pc A
  enter_size : Pc A
  -- holds the mutex
  pushing : A → Pc A
  signalling : Pc A
  testing : Pc A
  taking : Pc A
  measuring : Pc A
  leaving : Pc A
  -- inside pthread_cond_wait, without the mutex
  waiting : Pc A

pub record System {ℓ} (A : Type ℓ) : Type ℓ where
  pub queue : List A
  pub mutex : Option ℕ
  pub pc : ℕ → Pc A
  -- every item pushed, and every item popped, in order
  pub added : List A
  pub removed : List A

module _ {ℓ} {A : Type ℓ} where
  abbrev pub go : (ℕ → Pc A) → ℕ → Pc A → ℕ → Pc A
  go pc i p j = if nat_beq i j then p else pc j

  -- Thread i makes the next call of the operation that it runs.
  pub data Step (s : System A) (i : ℕ) (t : System A) : Type ℓ where
    -- an idle thread calls an operation
    begin_add : (a : A) → s.pc i ≡ idle → t ≡ record s { pc = go s.pc i (enter_add a) } → Step s i t
    begin_remove : s.pc i ≡ idle → t ≡ record s { pc = go s.pc i enter_remove } → Step s i t
    begin_size : s.pc i ≡ idle → t ≡ record s { pc = go s.pc i enter_size } → Step s i t
    -- pthread_mutex_lock returns
    lock_add :
        (a : A)
        → s.pc i ≡ enter_add a
        → s.mutex ≡ none
        → t ≡ record s { mutex = some i; pc = go s.pc i (pushing a) }
        → Step s i t
    lock_remove :
        s.pc i ≡ enter_remove
        → s.mutex ≡ none
        → t ≡ record s { mutex = some i; pc = go s.pc i testing }
        → Step s i t
    lock_size :
        s.pc i ≡ enter_size
        → s.mutex ≡ none
        → t ≡ record s { mutex = some i; pc = go s.pc i measuring }
        → Step s i t
    -- push_back, then the signal
    push :
        (a : A)
        → s.pc i ≡ pushing a
        → t ≡ record s {
          queue = s.queue ++ a ∷ [];
          pc = go s.pc i signalling;
          added = s.added ++ a ∷ [];
        }
        → Step s i t
    signal : s.pc i ≡ signalling → t ≡ record s { pc = go s.pc i leaving } → Step s i t
    -- the test of the while loop: wait gives the mutex up, and takes it again before it returns
    wait :
        s.pc i ≡ testing
        → s.queue ≡ []
        → t ≡ record s { mutex = none; pc = go s.pc i waiting }
        → Step s i t
    wake :
        s.pc i ≡ waiting
        → s.mutex ≡ none
        → t ≡ record s { mutex = some i; pc = go s.pc i testing }
        → Step s i t
    ready : s.pc i ≡ testing → s.queue ≢ [] → t ≡ record s { pc = go s.pc i taking } → Step s i t
    -- front and pop_front
    take_front :
        (a : A) (rest : List A)
        → s.pc i ≡ taking
        → s.queue ≡ a ∷ rest
        → t ≡ record s { queue = rest; pc = go s.pc i leaving; removed = s.removed ++ a ∷ [] }
        → Step s i t
    measure : s.pc i ≡ measuring → t ≡ record s { pc = go s.pc i leaving } → Step s i t
    -- pthread_mutex_unlock
    unlock : s.pc i ≡ leaving → t ≡ record s { mutex = none; pc = go s.pc i idle } → Step s i t

  abbrev pub start : System A
  start = record { queue = []; mutex = none; pc = λ i. idle; added = []; removed = [] }

  pub data Reach : System A → Type ℓ where
    here : Reach start
    next : {s t : System A} (i : ℕ) → Reach s → Step s i t → Reach t
