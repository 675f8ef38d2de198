-- ===== src/TryCatch.antt =====
-- The macros Try, Catch, Finally and EndTry and the function ntyExceptionThrow of
-- 3.2高性能组件/3.2.1原子操作CAS与锁实现/src/example/trycatch_finally.c, for one thread: each thread has its
-- own stack of frames. A program is what is written with the macros; what it does otherwise is `say`.
-- Exceptions, and places in the text (file, function and line), are the numbers that name them.
pub mod Reference
pub mod Refines
mod Tests
use basic_component_design.Common.{
  ℕ, zero, suc, ◌+◌, Bool, List, [], ◌∷◌, ◌++◌, Option, none, some, length, ◌==◌, if◌then◌else◌,
}

-- `Try { body } Catch(e) { ... } ... Finally { ... } EndTry`: what follows the body of a Try.
mutual
  pub data Stmt : Type 0 where
    say : (n : ℕ) → Stmt
    throw : (e : ℕ) (cause : Option (List ℕ)) (site : ℕ) → Stmt
    then_do : (first second : Stmt) → Stmt
    try_do : (body : Stmt) (handlers : Handlers) → Stmt

  pub data Handlers : Type 0 where
    end_try : Handlers
    finally_do : (last : Stmt) → Handlers
    catch_do : (e : ℕ) (handler : Stmt) (others : Handlers) → Handlers

-- `env` is the frame itself, known by its address, which is how deep it stands in the stack.
pub record Frame : Type 0 where
  pub address : ℕ
  pub exception : ℕ
  pub message : List ℕ
  pub site : ℕ

-- What is printed: by the program, and by ntyExceptionThrow where there is no frame.
pub data Event : Type 0 where
  said : ℕ → Event
  uncaught : (e : ℕ) (message : Option (List ℕ)) (site : ℕ) → Event

pub record State : Type 0 where
  pub stack : List Frame
  pub out : List Event

-- The code was left at its end, or by longjmp to a frame.
pub data Result : Type 0 where
  done : State → Result
  jumped : Frame → State → Result

unfoldable pub and_then : Result → (State → Result) → Result
and_then (done s) k = k s
and_then (jumped f s) k = jumped f s

-- At most `n` bytes; `vsnprintf` with room for 512 leaves 511 and the NUL.
unfoldable pub cut : ℕ → List ℕ → List ℕ
cut zero text = []
cut (suc n) [] = []
cut (suc n) (c ∷ cs) = c ∷ cut n cs

abbrev pub message_room : ℕ
message_room = 511

unfoldable pub message_of : Option (List ℕ) → List ℕ → List ℕ
unfolding cut
message_of none old = old
message_of (some cause) old = cut message_room cause

unfoldable pub printed : Option (List ℕ) → Option (List ℕ)
unfolding cut
printed none = none
printed (some cause) = some (cut message_room cause)

-- The frame once ntyExceptionThrow has filled it.
unfoldable pub thrown : Frame → ℕ → Option (List ℕ) → ℕ → Frame
unfolding message_of
thrown f e cause site = record f {
  exception = e;
  site = site;
  message = message_of cause f.message;
}

-- ntyExceptionThrow: with no frame it prints and returns.
unfoldable pub throw_exception : ℕ → Option (List ℕ) → ℕ → State → Result
unfolding printed thrown
throw_exception e cause site s = elim s.stack [
  | [] ↦ done (record s { out = s.out ++ (uncaught e (printed cause) site ∷ []) })
  | f ∷ fs ↦ jumped (thrown f e cause site) (record s { stack = fs })
]

-- ntyExceptionPopStack; it is used only where a frame has been pushed.
unfoldable pub pop_stack : State → State
pop_stack s = elim s.stack [ [] ↦ s | f ∷ fs ↦ record s { stack = fs } ]

-- The frame of a Try, pushed.
unfoldable pub new_frame : State → Frame
new_frame s = record { address = length s.stack; exception = 0; message = []; site = 0 }

unfoldable pub push_frame : State → State
unfolding new_frame
push_frame s = record s { stack = new_frame s ∷ s.stack }

-- Behind the body of the Try with the frame `own`: at its end the frame is popped; a jump to the
-- frame comes back from `setjmp`, and a jump to another frame goes on.
unfoldable pub leave_try : Frame → Result → (State → Result) → (Frame → State → Result) → Result
unfolding pop_stack
leave_try own (done t) at_end at_throw = at_end (pop_stack t)
leave_try own (jumped f t) at_end at_throw =
    if f.address == own.address then at_throw f t else jumped f t

-- `run_finally`: behind the body at ExceptionEntered, or behind a handler at ExceptionHandled, what
-- is left is the block of Finally. `run_catches`: at ExceptionThrown, the first Catch of the
-- exception, or the block of Finally and ReThrow.
unfoldable mutual
  unfolding and_then throw_exception leave_try new_frame push_frame

  pub exec : Stmt → State → Result
  exec (say n) s = done (record s { out = s.out ++ (said n ∷ []) })
  exec (throw e cause site) s = throw_exception e cause site s
  exec (then_do first second) s = and_then (exec first s) (λ t. exec second t)
  exec (try_do body handlers) s =
      leave_try (new_frame s) (exec body (push_frame s)) (λ t. run_finally handlers t)
        (λ f t. run_catches handlers f t)

  pub run_finally : Handlers → State → Result
  run_finally end_try s = done s
  run_finally (finally_do last) s = exec last s
  run_finally (catch_do e handler others) s = run_finally others s

  pub run_catches : Handlers → Frame → State → Result
  run_catches end_try f s = throw_exception f.exception none f.site s
  run_catches (finally_do last) f s =
      and_then (exec last s) (λ t. throw_exception f.exception none f.site t)
  run_catches (catch_do e handler others) f s =
      let caught = and_then (exec handler s) (λ t. run_finally others t) in
      let passed = run_catches others f s in if f.exception == e then caught else passed
