-- ===== src/Solver/Luby/Tests.antt =====
-- Elements of the sequence.
use gophersat.Prelude.{◌≡◌, refl, arith, ◌+◌}
use gophersat.Prelude.Run.{ok}
use gophersat.Solver.Luby.{end_of_row, find_row, luby}
use gophersat.Solver.Luby.Sequence.{luby-row}

luby_thirteenth : luby 31 13 ≡ ok 2
unfolding luby end_of_row find_row
luby_thirteenth = refl

luby-row_example : luby 31 (13 + 1) ≡ ok 4
luby-row_example = luby-row 4 31 13 4 (omega arith) (omega arith) refl
