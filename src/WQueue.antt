-- ===== src/WQueue.antt =====
-- src/wqueue.h: the queue between threads, each operation taken as one step. What the threads do
-- inside an operation is WQueue/Threads.
pub mod Threads
use ipop_tincan.Prelude.{ℕ, ◌≡◌, Option, none, some, List, [], ◌∷◌, ◌++◌, length}

module _ {ℓ} {A : Type ℓ} where
  -- push_back
  unfoldable pub add : A → List A → List A
  add item queue = queue ++ item ∷ []

  -- front and pop_front; `none` means that the caller waits.
  unfoldable pub remove : List A → Option (A × List A)
  remove [] = none
  remove (item ∷ queue) = some (item, queue)

  unfoldable pub size : List A → ℕ
  size queue = length queue
