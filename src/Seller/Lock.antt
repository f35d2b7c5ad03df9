-- ===== src/Seller/Lock.antt =====
-- seller/main.py: threads that run the handler of Naive step by step, each inside `with buy_lock:`.
-- The body of `/buy` is that of the naive seller, statement for statement. A thread that finds the
-- lock taken waits: its turn changes nothing. A `return` inside the block releases the lock.
pub mod Serial
pub mod Safety
pub mod Progress
use ticket_selling_system.Prelude.{ℕ, Option, none, some, List, [], ◌∷◌}
use ticket_selling_system.Store.{State, BuyRequest, BuyResponse}
use ticket_selling_system.Naive.{Pc, entered, done, advance, update}

pub data Place : Type 0 where
  -- at `with buy_lock:`
  waiting : Place
  -- in the block
  inside : Pc → Place
  -- past the block, with the response
  returned : BuyResponse → Place

pub record Shop : Type 0 where
  pub store : State
  pub lock : Option ℕ
  pub place : ℕ → Place

abbrev pub open_shop : State → Shop
open_shop s = record { store = s; lock = none; place = λ _. waiting }

-- `buy_lock.acquire()`
unfoldable pub acquire : Shop → ℕ → Option ℕ → Shop
acquire y i none = record y { lock = some i; place = update y.place i (inside entered) }
acquire y i (some _) = y

-- One step in the block, or the exit from it.
unfoldable pub work : BuyRequest → Shop → ℕ → Pc → Shop
work req y i (done res) = record y { lock = none; place = update y.place i (returned res) }
work req y i p =
    let (q, s) = advance req p y.store in
    record y { store = s; place = update y.place i (inside q) }

unfoldable pub move : BuyRequest → Shop → ℕ → Place → Shop
unfolding acquire work
move req y i waiting = acquire y i y.lock
move req y i (inside p) = work req y i p
move req y i (returned res) = y

module _ (request : ℕ → BuyRequest) where
  unfoldable pub turn : Shop → ℕ → Shop
  unfolding move
  turn y i = move (request i) y i (y.place i)

  unfoldable pub run : List ℕ → Shop → Shop
  unfolding turn
  run [] y = y
  run (i ∷ is) y = run is (turn y i)
