-- ===== src/Tests/Queues.antt =====
-- Thread 2 waits on the empty queue; thread 1 adds 7; thread 2 wakes and goes to the front.
use ipop_tincan.Prelude.{ℕ, refl, none, some, [], ◌∷◌}
use ipop_tincan.WQueue.Threads.{
  System, Reach, here, next, start, go, idle, enter_add, enter_remove, pushing, signalling, testing,
  taking, leaving, waiting, begin_add, begin_remove, lock_add, lock_remove, push, signal, wait,
  wake, ready, unlock,
}
use ipop_tincan.WQueue.Threads.Safety.{IsSafe, Reach-IsSafe}

abbrev waits_for_mutex : System ℕ
waits_for_mutex = record (start {A = ℕ}) { pc = go (start {A = ℕ}).pc 2 enter_remove }

abbrev tests : System ℕ
tests = record waits_for_mutex { mutex = some 2; pc = go waits_for_mutex.pc 2 testing }

abbrev sleeps : System ℕ
sleeps = record tests { mutex = none; pc = go tests.pc 2 waiting }

abbrev has_item : System ℕ
has_item = record sleeps { pc = go sleeps.pc 1 (enter_add 7) }

abbrev inside : System ℕ
inside = record has_item { mutex = some 1; pc = go has_item.pc 1 (pushing 7) }

abbrev pushed : System ℕ
pushed = record inside { queue = 7 ∷ []; pc = go inside.pc 1 signalling; added = 7 ∷ [] }

abbrev signalled : System ℕ
signalled = record pushed { pc = go pushed.pc 1 leaving }

abbrev released : System ℕ
released = record signalled { mutex = none; pc = go signalled.pc 1 idle }

abbrev woken : System ℕ
woken = record released { mutex = some 2; pc = go released.pc 2 testing }

abbrev at_front : System ℕ
at_front = record woken { pc = go woken.pc 2 taking }

Reach-waits_for_mutex : Reach waits_for_mutex
Reach-waits_for_mutex = next 2 here (begin_remove refl refl)

Reach-tests : Reach tests
Reach-tests = next 2 Reach-waits_for_mutex (lock_remove refl refl refl)

Reach-sleeps : Reach sleeps
Reach-sleeps = next 2 Reach-tests (wait refl refl refl)

Reach-has_item : Reach has_item
Reach-has_item = next 1 Reach-sleeps (begin_add 7 refl refl)

Reach-inside : Reach inside
Reach-inside = next 1 Reach-has_item (lock_add 7 refl refl refl)

Reach-pushed : Reach pushed
Reach-pushed = next 1 Reach-inside (push 7 refl refl)

Reach-signalled : Reach signalled
Reach-signalled = next 1 Reach-pushed (signal refl refl)

Reach-released : Reach released
Reach-released = next 1 Reach-signalled (unlock refl refl)

Reach-woken : Reach woken
Reach-woken = next 2 Reach-released (wake refl refl refl)

Reach-at_front : Reach at_front
Reach-at_front = next 2 Reach-woken (ready refl (λ e. cc) refl)

Reach-IsSafe_example : IsSafe at_front
Reach-IsSafe_example = Reach-IsSafe Reach-at_front
