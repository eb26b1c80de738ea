-- ===== src/Base/Threads.antt =====
-- What a thread of a test program does at its place in the program.
use switchboard_adapter.Base.{◌≡◌, ap}
use switchboard_adapter.Base.Result.{Result, Error, ok, err, blocked}

-- It goes on, waits in a send or a receive, fails, or has returned.
pub data Move (A : Type 0) : Type 0 where
  moved : A → Move A
  waiting returned : Move A
  failed : Error → Move A

abbrev pub move : {A : Type 0} → Result A → Move A
move (ok a) = moved a
move (err blocked) = waiting
move (err e) = failed e

come : {A : Type 0} → A → Move A → A
come other (moved a) = a
come other waiting = other
come other returned = other
come other (failed e) = other

pub moved-injective : {A : Type 0} (a b : A) → moved a ≡ moved b → a ≡ b
unfolding come
moved-injective a b e = ap (come a) e
