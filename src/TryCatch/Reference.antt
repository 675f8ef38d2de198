-- ===== src/TryCatch/Reference.antt =====
-- Exceptions without a stack: a statement ends, or raises an exception to whatever is around it.
use basic_component_design.Common.{
  ℕ, Bool, true, false, List, [], ◌∷◌, ◌++◌, Option, none, ◌==◌, if◌then◌else◌,
}
use basic_component_design.TryCatch.{
  Stmt, say, throw, then_do, try_do, Handlers, end_try, finally_do, catch_do, Event, said, uncaught,
  printed,
}

pub data Outcome : Type 0 where
  normal : Outcome
  raised : (e : ℕ) (cause : Option (List ℕ)) (site : ℕ) → Outcome

abbrev pub Meaning : Type 0
Meaning = Outcome × List Event

abbrev pub after : List Event → Meaning → Meaning
after events m = (m.0, events ++ m.1)

unfoldable pub and_next : Meaning → Meaning → Meaning
and_next (normal, events) m = after events m
and_next (raised e cause site, events) m = (raised e cause site, events)

unfoldable pub and_handle : Meaning → Meaning → (ℕ → ℕ → Meaning) → Meaning
and_handle (normal, events) at_end at_throw = after events at_end
and_handle (raised e cause site, events) at_end at_throw = after events (at_throw e site)

-- Outside of every Try an exception is printed, and the program goes on.
unfoldable pub raise : Bool → ℕ → Option (List ℕ) → ℕ → Meaning
unfolding printed
raise true e cause site = (raised e cause site, [])
raise false e cause site = (normal, uncaught e (printed cause) site ∷ [])

-- The first argument: is there a Try around?
unfoldable mutual
  unfolding and_next and_handle raise

  pub eval : Stmt → Bool → Meaning
  eval (say n) inside = (normal, said n ∷ [])
  eval (throw e cause site) inside = raise inside e cause site
  eval (then_do first second) inside = and_next (eval first inside) (eval second inside)
  eval (try_do body handlers) inside =
      and_handle (eval body true) (eval_finally handlers inside)
        (λ x site. eval_catches handlers x site inside)

  pub eval_finally : Handlers → Bool → Meaning
  eval_finally end_try inside = (normal, [])
  eval_finally (finally_do last) inside = eval last inside
  eval_finally (catch_do e handler others) inside = eval_finally others inside

  pub eval_catches : Handlers → ℕ → ℕ → Bool → Meaning
  eval_catches end_try x site inside = raise inside x none site
  eval_catches (finally_do last) x site inside =
      and_next (eval last inside) (raise inside x none site)
  eval_catches (catch_do e handler others) x site inside =
      let caught = and_next (eval handler inside) (eval_finally others inside) in
      let passed = eval_catches others x site inside in if x == e then caught else passed
