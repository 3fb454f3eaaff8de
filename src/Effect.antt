-- ===== src/Effect.antt =====
-- How a command runs: it prints lines and makes calls to an API server, in an order that is kept, and
-- it may return an error. The server answers a call by the events before it.
pub mod Emits
pub mod Runs
pub mod Calls
pub mod Sends
pub mod IfOk
use clusteradm.Base.{Bool, String, Option, none, some, List, [], ◌∷◌, ◌++◌, if◌then◌else◌}

-- A Go result of which either the value or the error is there.
pub data Result (E A : Type 0) : Type 0 where
  ok : A → Result E A
  err : E → Result E A

-- What a command does that others can see: a line that it prints, or a call that it makes.
pub data Event (C : Type 0) : Type 0 where
  print : String → Event C
  request : C → Event C

-- The last event comes first.
abbrev pub Trace : Type 0 → Type 0
Trace C = List (Event C)

-- A command reads what has happened and answers its result with the events that it adds.
abbrev pub Prog : Type 0 → Type 0 → Type 0 → Type 0
Prog C E A = Trace C → Result E A × Trace C

module _ {C E A : Type 0} where
  unfoldable pub pure : A → Prog C E A
  pure a h = (ok a, [])

  unfoldable pub fail : E → Prog C E A
  fail e h = (err e, [])

module _ {C E : Type 0} where
  unfoldable pub say : String → Prog C E (Unit {0})
  say line h = (ok tt, print line ∷ [])

-- A server: the answer to a call, by the trace before it.
abbrev pub Server : (C : Type 0) → (C → Type 0) → Type 0 → Type 0
Server C Answer E = Trace C → (c : C) → Result E (Answer c)

module _ {C E : Type 0} {Answer : C → Type 0} where
  unfoldable pub call : Server C Answer E → (c : C) → Prog C E (Answer c)
  call server c h = (server h c, request c ∷ [])

module _ {C E A B : Type 0} where
  -- `if err != nil { return err }` between two steps
  abbrev continue : Result E A → Trace C → (A → Prog C E B) → Trace C → Result E B × Trace C
  continue (ok a) new f h = let (r, later) = f a (new ++ h) in (r, later ++ new)
  continue (err e) new f h = (err e, new)

  infixl 5 ◌>>=◌ ◌>>◌
  unfoldable pub ◌>>=◌ : Prog C E A → (A → Prog C E B) → Prog C E B
  ◌>>=◌ m f h = let (r, new) = m h in continue r new f h

  unfoldable pub ◌>>◌ : Prog C E A → Prog C E B → Prog C E B
  unfolding ◌>>=◌
  m >> n = m >>= λ _. n

module _ {C E A : Type 0} where
  -- The result as a value, where the code goes on after an error.
  unfoldable pub attempt : Prog C E A → Prog C E (Result E A)
  attempt m h = let (r, new) = m h in (ok r, new)

  -- A result that is at hand.
  unfoldable pub lift : Result E A → Prog C E A
  lift r h = (r, [])

module _ {C E : Type 0} where
  -- `return err`, where `err` may be nil
  unfoldable pub return_error : Option E → Prog C E (Unit {0})
  return_error none h = (ok tt, [])
  return_error (some e) h = (err e, [])
