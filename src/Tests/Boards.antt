-- ===== src/Tests/Boards.antt =====
-- A run of calls, seen on the abstract view of the tasks.
use taskflow_api.Base.{none, List, [], ◌∷◌, pos}
use taskflow_api.Domain.{done}
use taskflow_api.Server.{Call, logs_in, creates, updates, deletes, run}
use taskflow_api.Server.Board.{board, PermitsRun}
use taskflow_api.Server.Board.Refines.{run-PermitsRun}
use taskflow_api.Tests.Sample.{process, env-IsQuiet, stocked, IsConsistent-stocked}

-- The second user does not exist, and the first task is of the first user.
abbrev calls : List Call
calls =
    logs_in "a@b" "password"
    ∷ creates (pos 1) "read" "" none
    ∷ creates (pos 2) "read" "" none
    ∷ updates (pos 1) (pos 1) "wrote" "" done none
    ∷ deletes (pos 2) (pos 1)
    ∷ deletes (pos 1) (pos 1)
    ∷ []

run-PermitsRun_example :
    PermitsRun (λ t. t) calls (board stocked.tables) (board (run process calls stocked).tables)
run-PermitsRun_example = run-PermitsRun process calls stocked env-IsQuiet IsConsistent-stocked
