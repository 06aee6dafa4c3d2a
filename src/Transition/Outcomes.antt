-- ===== src/Transition/Outcomes.antt =====
-- What a call leaves behind, by how it ends, and the rules for the calls of the transaction.
use proxyscene.Common.{Error, Result, err, ok, refl, ◌≡◌}
use proxyscene.Transition.{
  Action, Ending, Fault, Host, Machine, Stage, attempt, change, changed, complete, fails, fine,
  followed, observe, observed, raised, returned, stopped, stops, tick,
}

module _ {X J : Type 0} {A : Type 0} (Good : A → Machine X J → Type 0)
    (Bad Dead : Machine X J → Type 0) where
  abbrev EndsBy : Machine X J × Ending A → Type 0
  EndsBy (m, returned a) = Good a m
  EndsBy (m, raised e) = Bad m
  EndsBy (m, stopped) = Dead m

  -- What holds of the machine behind a value, behind an error, and where the process stopped.
  pub record Ends (x : Machine X J × Ending A) : Type 0 where
    pub ended : EndsBy x

module _ {X J : Type 0} {A B : Type 0} where
  -- The next call goes on where the one before ended well.
  pub Ends-followed :
      {Good : A → Machine X J → Type 0} {Next : B → Machine X J → Type 0}
      {Bad Dead : Machine X J → Type 0} (x : Machine X J × Ending A) (next : A → Action X J B)
      → Ends Good Bad Dead x
      → ((a : A) (m : Machine X J) → Good a m → Ends Next Bad Dead (next a m))
      → Ends Next Bad Dead (followed next x)
  unfolding followed
  Ends-followed (m, returned a) next e go = go a m e.ended
  Ends-followed (m, raised f) next e go = record { ended = e.ended }
  Ends-followed (m, stopped) next e go = record { ended = e.ended }

module _ {X J : Type 0} {A : Type 0} {Good : A → Machine X J → Type 0}
    {Bad Dead : Machine X J → Type 0} where
  pub Ends-returned : {a : A} {m : Machine X J} → Good a m → Ends Good Bad Dead (m, returned a)
  Ends-returned p = record { ended = p }

  pub Ends-raised : {e : Error} {m : Machine X J} → Bad m → Ends Good Bad Dead (m, raised e)
  Ends-raised p = record { ended = p }

  pub Ends-stopped : {m : Machine X J} → Dead m → Ends Good Bad Dead (m, stopped)
  Ends-stopped p = record { ended = p }

  pub Ends-weaken :
      {More : A → Machine X J → Type 0} {Worse Gone : Machine X J → Type 0}
      (x : Machine X J × Ending A)
      → Ends More Worse Gone x
      → ((a : A) (m : Machine X J) → More a m → Good a m)
      → ((m : Machine X J) → Worse m → Bad m)
      → ((m : Machine X J) → Gone m → Dead m)
      → Ends Good Bad Dead x
  Ends-weaken (m, returned a) e g b d = record { ended = g a m e.ended }
  Ends-weaken (m, raised f) e g b d = record { ended = b m e.ended }
  Ends-weaken (m, stopped) e g b d = record { ended = d m e.ended }

module _ {X J : Type 0} {A B : Type 0} {Next : B → Machine X J → Type 0}
    {Bad Dead : Machine X J → Type 0} where
  -- A computation in memory: the machine stays, and the value is known.
  pub then_attempt :
      (r : Result A) (next : A → Action X J B) (m : Machine X J)
      → Bad m
      → ((a : A) → r ≡ ok a → Ends Next Bad Dead (next a m))
      → Ends Next Bad Dead (followed next (attempt r m))
  unfolding followed attempt
  then_attempt (ok a) next m bad go = go a refl
  then_attempt (err e) next m bad go = record { ended = bad }

module _ {C R T X J : Type 0} (h : Host C R T X J) {A B : Type 0} {Next : B → Machine X J → Type 0}
    {Bad Dead : Machine X J → Type 0} where
  -- A read: only the clock moves, and the value comes from the machine.
  pub then_observe :
      (f : Machine X J → Result A) (next : A → Action X J B) (m : Machine X J)
      → Bad (tick m)
      → Dead (tick m)
      → ((a : A) → f m ≡ ok a → Ends Next Bad Dead (next a (tick m)))
      → Ends Next Bad Dead (followed next (observe h f m))
  unfolding observe followed
  then_observe f next m bad dead go = by_fault (h.fault m.clock) (f m) refl
    where
      by_fault :
          (w : Fault) (r : Result A)
          → f m ≡ r
          → Ends Next Bad Dead (followed next (tick m, observed h w r))
      by_fault fine (ok a) e = go a e
      by_fault fine (err x) e = record { ended = bad }
      by_fault (fails s) r e = record { ended = bad }
      by_fault (stops s) r e = record { ended = dead }

module _ {C R T X J : Type 0} (h : Host C R T X J) {B : Type 0} {Next : B → Machine X J → Type 0}
    {Bad Dead : Machine X J → Type 0} where
  -- A write, by its stages.
  pub then_change :
      (f : Stage → Machine X J → Machine X J) (next : Unit {0} → Action X J B) (m : Machine X J)
      → ((s : Stage) → Bad (f s (tick m)))
      → ((s : Stage) → Dead (f s (tick m)))
      → Ends Next Bad Dead (next tt (f complete (tick m)))
      → Ends Next Bad Dead (followed next (change h f m))
  unfolding change followed
  then_change f next m bad dead go = by_fault (h.fault m.clock)
    where
      by_fault : (w : Fault) → Ends Next Bad Dead (followed next (changed h w f (tick m)))
      by_fault fine = go
      by_fault (fails s) = record { ended = bad s }
      by_fault (stops s) = record { ended = dead s }

module _ {C R T X J : Type 0} (h : Host C R T X J) {Good : Unit {0} → Machine X J → Type 0}
    {Bad Dead : Machine X J → Type 0} where
  -- A write that is the last call.
  pub Ends-change :
      (f : Stage → Machine X J → Machine X J) (m : Machine X J)
      → ((s : Stage) → Bad (f s (tick m)))
      → ((s : Stage) → Dead (f s (tick m)))
      → Good tt (f complete (tick m))
      → Ends Good Bad Dead (change h f m)
  unfolding change
  Ends-change f m bad dead good = by_fault (h.fault m.clock)
    where
      by_fault : (w : Fault) → Ends Good Bad Dead (changed h w f (tick m))
      by_fault fine = record { ended = good }
      by_fault (fails s) = record { ended = bad s }
      by_fault (stops s) = record { ended = dead s }

module _ {X J : Type 0} {A : Type 0} {Good : A → Machine X J → Type 0}
    {Bad Dead : Machine X J → Type 0} where
  -- A computation in memory that is the last call.
  pub Ends-attempt :
      (r : Result A) (m : Machine X J)
      → Bad m
      → ((a : A) → r ≡ ok a → Good a m)
      → Ends Good Bad Dead (attempt r m)
  unfolding attempt
  Ends-attempt (ok a) m bad good = record { ended = good a refl }
  Ends-attempt (err e) m bad good = record { ended = bad }

module _ {C R T X J : Type 0} (h : Host C R T X J) {A : Type 0} {Good : A → Machine X J → Type 0}
    {Bad Dead : Machine X J → Type 0} where
  -- A read that is the last call.
  pub Ends-observe :
      (f : Machine X J → Result A) (m : Machine X J)
      → Bad (tick m)
      → Dead (tick m)
      → ((a : A) → f m ≡ ok a → Good a (tick m))
      → Ends Good Bad Dead (observe h f m)
  unfolding observe
  Ends-observe f m bad dead good = by_fault (h.fault m.clock) (f m) refl
    where
      by_fault : (w : Fault) (r : Result A) → f m ≡ r → Ends Good Bad Dead (tick m, observed h w r)
      by_fault fine (ok a) e = record { ended = good a e }
      by_fault fine (err x) e = record { ended = bad }
      by_fault (fails s) r e = record { ended = bad }
      by_fault (stops s) r e = record { ended = dead }
