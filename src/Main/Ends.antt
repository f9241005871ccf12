-- ===== src/Main/Ends.antt =====
-- The whole program ends.
use rrep.Base.{◌≢◌, List}
use rrep.Options.{Options}
use rrep.Heap.{Heap}
use rrep.Pattern.{Pattern}
use rrep.Replacement.{Replace}
use rrep.World.{Exit, success, stuck}
use rrep.Walk.{Walk}
use rrep.Main.{Outcome, MainExit, exits, undefined}

-- No loop has run out of rounds.
abbrev EndsInTime : Walk → Outcome → Type 0
EndsInTime s x = x.exit ≢ exits stuck

exit_of : MainExit → Exit
exit_of (exits x) = x
exit_of undefined = success
