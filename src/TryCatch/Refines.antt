-- ===== src/TryCatch/Refines.antt =====
-- The jumps over the stack of frames come to the exceptions of the reference.
use basic_component_design.Common.{
  ℕ, ◌≡◌, refl, sym, ap, ◌∙◌, Bool, true, false, List, [], ◌∷◌, ◌++◌, Option, none, ◌==◌,
  if◌then◌else◌, arith, Bool-cases,
}
use basic_component_design.TryCatch.{
  Stmt, say, throw, then_do, try_do, Handlers, end_try, finally_do, catch_do, Frame, Event, State,
  Result, done, jumped, and_then, leave_try, thrown, throw_exception, pop_stack, new_frame,
  push_frame, exec, run_finally, run_catches,
}
use basic_component_design.TryCatch.Reference.{
  normal, raised, Meaning, after, and_next, and_handle, raise, eval, eval_finally, eval_catches,
}
use mathlib.Core.Logic.{inl, inr}
use mathlib.Core.List.{append_assoc, append-nil}

abbrev pub is_inside : List Frame → Bool
is_inside [] = false
is_inside (f ∷ fs) = true

abbrev pub at : List Frame → List Event → State
at stack out = record { stack = stack; out = out }

-- The result that stands for a meaning: at the end the stack is as it was; a raised exception has
-- jumped to the top frame and taken it off.
abbrev pub result_of : List Frame → List Event → Meaning → Result
result_of stack out (normal, events) = done (at stack (out ++ events))
result_of [] out (raised e cause site, events) = done (at [] (out ++ events))
result_of (f ∷ fs) out (raised e cause site, events) =
    jumped (thrown f e cause site) (at fs (out ++ events))

-- Outside of every Try nothing is raised.
abbrev pub IsNormal : Meaning → Type 0
IsNormal m = m.0 ≡ normal

and_next-IsNormal : (m k : Meaning) → IsNormal m → IsNormal k → IsNormal (and_next m k)
unfolding and_next
and_next-IsNormal (normal, events) k hm hk = hk
and_next-IsNormal (raised e cause site, events) k hm hk = hm

and_handle-IsNormal :
    (m k : Meaning) (c : ℕ → ℕ → Meaning)
    → IsNormal k
    → ((x site : ℕ) → IsNormal (c x site))
    → IsNormal (and_handle m k c)
unfolding and_handle
and_handle-IsNormal (normal, events) k c hk hc = hk
and_handle-IsNormal (raised e cause site, events) k c hk hc = hc e site

if-IsNormal : (b : Bool) (m k : Meaning) → IsNormal m → IsNormal k → IsNormal (if b then m else k)
if-IsNormal true m k hm hk = hm
if-IsNormal false m k hm hk = hk

mutual
  unfolding eval eval_finally eval_catches raise

  eval_outside : (p : Stmt) → IsNormal (eval p false)
  eval_outside (say n) = refl
  eval_outside (throw e cause site) = refl
  eval_outside (then_do first second) =
      and_next-IsNormal (eval first false) (eval second false) (eval_outside first)
        (eval_outside second)
  eval_outside (try_do body handlers) =
      and_handle-IsNormal (eval body true) (eval_finally handlers false)
        (λ x site. eval_catches handlers x site false) (finally_outside handlers)
        (λ x site. catches_outside handlers x site)

  finally_outside : (h : Handlers) → IsNormal (eval_finally h false)
  finally_outside end_try = refl
  finally_outside (finally_do last) = eval_outside last
  finally_outside (catch_do e handler others) = finally_outside others

  catches_outside : (h : Handlers) (x site : ℕ) → IsNormal (eval_catches h x site false)
  catches_outside end_try x site = refl
  catches_outside (finally_do last) x site =
      and_next-IsNormal (eval last false) (raise false x none site) (eval_outside last) refl
  catches_outside (catch_do e handler others) x site =
      if-IsNormal (x == e) (and_next (eval handler false) (eval_finally others false))
        (eval_catches others x site false)
        (and_next-IsNormal (eval handler false) (eval_finally others false) (eval_outside handler)
          (finally_outside others))
        (catches_outside others x site)

-- A meaning that can stand with the stack: nothing is raised if it is empty.
abbrev pub Fits : List Frame → Meaning → Type 0
Fits [] m = IsNormal m
Fits (f ∷ fs) m = Unit

result_of-after :
    (stack : List Frame) (out events : List Event) (m : Meaning)
    → result_of stack (out ++ events) m ≡ result_of stack out (after events m)
result_of-after [] out events (normal, later) =
    ap (λ (o : List Event). done (at [] o)) (append_assoc out events later)
result_of-after (f ∷ fs) out events (normal, later) =
    ap (λ (o : List Event). done (at (f ∷ fs) o)) (append_assoc out events later)
result_of-after [] out events (raised e cause site, later) =
    ap (λ (o : List Event). done (at [] o)) (append_assoc out events later)
result_of-after (f ∷ fs) out events (raised e cause site, later) =
    ap (λ (o : List Event). jumped (thrown f e cause site) (at fs o))
      (append_assoc out events later)

result_of-and_next :
    (stack : List Frame) (out : List Event) (m k : Meaning) (run : State → Result)
    → Fits stack m
    → ((o : List Event) → run (at stack o) ≡ result_of stack o k)
    → and_then (result_of stack out m) run ≡ result_of stack out (and_next m k)
unfolding and_then and_next
result_of-and_next stack out (normal, events) k run fits same =
    same (out ++ events) ∙ result_of-after stack out events k
result_of-and_next [] out (raised e cause site, events) k run fits same = absurd (ground arith)
result_of-and_next (f ∷ fs) out (raised e cause site, events) k run fits same = refl

throw_exception-raise :
    (stack : List Frame) (out : List Event) (e : ℕ) (cause : Option (List ℕ)) (site : ℕ)
    → throw_exception e cause site (at stack out)
      ≡ result_of stack out (raise (is_inside stack) e cause site)
unfolding throw_exception raise
throw_exception-raise [] out e cause site = refl
throw_exception-raise (f ∷ fs) out e cause site =
    ap (λ (o : List Event). jumped (thrown f e cause site) (at fs o)) (sym (append-nil out))

eval-Fits : (stack : List Frame) (p : Stmt) → Fits stack (eval p (is_inside stack))
eval-Fits [] p = eval_outside p
eval-Fits (f ∷ fs) p = tt

-- The Try with the frame `own` on top of the stack.
leave_try-and_handle :
    (stack : List Frame) (own : Frame) (out : List Event) (m k : Meaning) (c : ℕ → ℕ → Meaning)
    (at_end : State → Result) (at_throw : Frame → State → Result)
    → ((o : List Event) → at_end (at stack o) ≡ result_of stack o k)
    → ((f : Frame) (o : List Event)
        → at_throw f (at stack o) ≡ result_of stack o (c f.exception f.site))
    → leave_try own (result_of (own ∷ stack) out m) at_end at_throw
      ≡ result_of stack out (and_handle m k c)
unfolding leave_try pop_stack and_handle thrown
leave_try-and_handle stack own out (normal, events) k c at_end at_throw e_end e_throw =
    e_end (out ++ events) ∙ result_of-after stack out events k
leave_try-and_handle stack own out (raised e cause site, events) k c at_end at_throw e_end e_throw =
    let t : (own.address == own.address) ≡ true = ground arith in
    rw t (
      e_throw (thrown own e cause site) (out ++ events)
      ∙ result_of-after stack out events (c e site))

mutual
  unfolding exec run_finally run_catches eval eval_finally eval_catches new_frame push_frame

  exec-eval :
      (p : Stmt) (stack : List Frame) (out : List Event)
      → exec p (at stack out) ≡ result_of stack out (eval p (is_inside stack))
  exec-eval (say n) stack out = refl
  exec-eval (throw e cause site) stack out = throw_exception-raise stack out e cause site
  exec-eval (then_do first second) stack out =
      ap (λ (r : Result). and_then r (λ t. exec second t)) (exec-eval first stack out)
      ∙ result_of-and_next stack out (eval first (is_inside stack)) (eval second (is_inside stack))
          (λ t. exec second t) (eval-Fits stack first) (λ o. exec-eval second stack o)
  exec-eval (try_do body handlers) stack out =
      let own = new_frame (at stack out) in
      ap
        (λ (r : Result).
          leave_try own r (λ t. run_finally handlers t) (λ f t. run_catches handlers f t))
        (exec-eval body (own ∷ stack) out)
      ∙ leave_try-and_handle stack own out (eval body true)
          (eval_finally handlers (is_inside stack))
          (λ x site. eval_catches handlers x site (is_inside stack)) (λ t. run_finally handlers t)
          (λ f t. run_catches handlers f t) (λ o. finally-eval handlers stack o)
          (λ f o. catches-eval handlers f stack o)

  finally-eval :
      (h : Handlers) (stack : List Frame) (out : List Event)
      → run_finally h (at stack out) ≡ result_of stack out (eval_finally h (is_inside stack))
  finally-eval end_try stack out = ap (λ (o : List Event). done (at stack o)) (sym (append-nil out))
  finally-eval (finally_do last) stack out = exec-eval last stack out
  finally-eval (catch_do e handler others) stack out = finally-eval others stack out

  catches-eval :
      (h : Handlers) (f : Frame) (stack : List Frame) (out : List Event)
      → run_catches h f (at stack out)
        ≡ result_of stack out (eval_catches h f.exception f.site (is_inside stack))
  catches-eval end_try f stack out = throw_exception-raise stack out f.exception none f.site
  catches-eval (finally_do last) f stack out =
      ap (λ (r : Result). and_then r (λ t. throw_exception f.exception none f.site t))
        (exec-eval last stack out)
      ∙ result_of-and_next stack out (eval last (is_inside stack))
          (raise (is_inside stack) f.exception none f.site)
          (λ t. throw_exception f.exception none f.site t) (eval-Fits stack last)
          (λ o. throw_exception-raise stack o f.exception none f.site)
  catches-eval (catch_do e handler others) f stack out = elim (Bool-cases (f.exception == e)) [
    | inl t ↦ rw t (
        ap (λ (r : Result). and_then r (λ s. run_finally others s)) (exec-eval handler stack out)
        ∙ result_of-and_next stack out (eval handler (is_inside stack))
            (eval_finally others (is_inside stack)) (λ s. run_finally others s)
            (eval-Fits stack handler) (λ o. finally-eval others stack o))
    | inr t ↦ rw t (catches-eval others f stack out)
  ]

-- The jumps and frames of the macros come to a reference without jumps or frames, in which each
-- statement ends or raises. The reference has the macros' own rules, not those of other languages: a
-- block of Finally is not run where a Catch raises, and a ReThrow loses the message. A program in the
-- macros, run on any stack of frames, ends with that stack and prints what the reference prints, or,
-- where the reference raises an exception, it jumps to the top frame, which has that exception, its
-- place and its message, and has been taken off. With no frame it always ends: an exception that
-- nothing catches is printed, and the program goes on.
pub exec-result_of :
    (p : Stmt) (stack : List Frame) (out : List Event)
    → (exec p (at stack out) ≡ result_of stack out (eval p (is_inside stack)))
      × Fits stack (eval p (is_inside stack))
exec-result_of p stack out = (exec-eval p stack out, eval-Fits stack p)
