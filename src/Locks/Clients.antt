-- ===== src/Locks/Clients.antt =====
-- Clients that rewrite one update file under its lock (`_rewrite_wud_file` of src/wudup/wud_file.py
-- with `acquire` and `release` of src/wudup/locks.py), a system call at a time, in any order.
pub mod Safety
pub mod Refinement
use wudup.Prelude.{
  ℕ, Text, Bool, true, false, not, ◌&&◌, List, [], ◌∷◌, nat_eq, ◌==◌, if◌then◌else◌,
}
use wudup.WudFile.Rewrite.{rewrite_wud_file}

-- Where a client stands: outside, behind `mkdir`, behind the read, and before `rmdir`.
pub data Place : Type 0 where
  outside holding leaving : Place
  has_read : Text → Place

pub record World : Type 0 where
  -- Whether the directory of the lock is there.
  pub directory : Bool
  pub file : Text
  pub place : ℕ → Place

unfoldable pub move : (ℕ → Place) → ℕ → Place → ℕ → Place
move place i p j = if j == i then p else place j

-- What each client does to the lines of the file.
module _ (transform : ℕ → List Text → List Text) where
  -- The next system call of a client, and whether the system lets it succeed: `mkdir`, the read, the
  -- replacement of the file, and `rmdir`, whose failure is passed over.
  unfoldable pub step_from : World → ℕ → Bool → Place → World
  step_from w i ok outside =
      if ok && not w.directory
      then record w { directory = true; place = move w.place i holding }
      else w
  step_from w i ok holding = record w {
    place = move w.place i (if ok then has_read w.file else leaving);
  }
  step_from w i ok (has_read text) = record w {
    file = if ok then rewrite_wud_file (transform i) text else w.file;
    place = move w.place i leaving;
  }
  step_from w i ok leaving = record w {
    directory = if ok then false else w.directory;
    place = move w.place i outside;
  }

  unfoldable pub client_step : World → ℕ → Bool → World
  client_step w i ok = step_from w i ok (w.place i)

  -- The clients and the answers in the order of the calls.
  unfoldable pub run_clients : World → List (ℕ × Bool) → World
  run_clients w [] = w
  run_clients w ((i, ok) ∷ events) = run_clients (client_step w i ok) events

  unfoldable pub rewrites : Place → Bool → Bool
  rewrites (has_read text) ok = ok
  rewrites place ok = false

  -- The clients that rewrite the file, in order.
  unfoldable pub writers : World → List (ℕ × Bool) → List ℕ
  writers w [] = []
  writers w ((i, ok) ∷ events) =
      let rest = writers (client_step w i ok) events in
      if rewrites (w.place i) ok then i ∷ rest else rest

  -- The specification: whole rewrites, one behind the other.
  unfoldable pub rewrite_all : List ℕ → Text → Text
  rewrite_all [] text = text
  rewrite_all (i ∷ clients) text = rewrite_all clients (rewrite_wud_file (transform i) text)

-- Nobody has started.
unfoldable pub initial_world : Text → World
initial_world file = record { directory = false; file = file; place = λ i. outside }

unfoldable pub is_inside : Place → Bool
is_inside outside = false
is_inside place = true
