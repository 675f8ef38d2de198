-- ===== src/TryCatch/Tests.antt =====
-- Programs in the macros, and the theorem at one of them.
use basic_component_design.Common.{true, ◌≡◌, refl, [], ◌∷◌, none, some}
use basic_component_design.TryCatch.{
  Stmt, say, throw, then_do, try_do, end_try, finally_do, catch_do, Frame, said, uncaught, done,
  jumped, exec, thrown,
}
use basic_component_design.TryCatch.Reference.{eval}
use basic_component_design.TryCatch.Refines.{at, Fits, exec-result_of}

-- The first test of `main`, with the exceptions A (1) and B (2).
abbrev recall : Stmt
recall =
    try_do
      (then_do (try_do (throw 2 (some (82 ∷ [])) 10) (catch_do 2 (say 5) end_try))
        (throw 1 none 11))
      (catch_do 1 (say 6) end_try)

recall_prints : exec recall (at [] []) ≡ done (at [] (said 5 ∷ said 6 ∷ []))
unfolding exec
recall_prints = refl

abbrev outer : Frame
outer = record { address = 0; exception = 0; message = []; site = 0 }

-- The exception 3 passes a Try that catches 1 alone, whose Finally prints, and jumps to `outer`.
abbrev passing : Stmt
passing = try_do (throw 3 (some (77 ∷ [])) 12) (catch_do 1 (say 1) (finally_do (say 9)))

exec-result_of_example :
    (exec passing (at (outer ∷ []) []) ≡ jumped (thrown outer 3 none 12) (at [] (said 9 ∷ [])))
    × Fits (outer ∷ []) (eval passing true)
unfolding eval
exec-result_of_example = exec-result_of passing (outer ∷ []) []

-- ReThrow passes no cause: the message "M" of the throw does not get to the outer frame.
message_lost : (thrown outer 3 none 12).message ≡ []
unfolding thrown
message_lost = refl

-- An exception in a handler leaves the block of Finally out.
finally_skipped :
    exec
      (try_do
        (try_do (throw 1 none 12) (catch_do 1 (throw 2 none 13) (finally_do (say 9))))
        (catch_do 2 (say 4) end_try))
      (at [] [])
    ≡ done (at [] (said 4 ∷ []))
unfolding exec
finally_skipped = refl

-- Outside of every Try the exception is printed, and what follows is run.
goes_on :
    exec (then_do (throw 4 none 14) (say 8)) (at [] [])
    ≡ done (at [] (uncaught 4 none 14 ∷ said 8 ∷ []))
unfolding exec
goes_on = refl
