-- ===== src/Solver/Luby.antt =====
-- solver/luby.go: the restart sequence. The shifts stay below 2^64 for the fuel of `find_row`.
pub mod Sequence
mod Tests
use gophersat.Prelude.{
  ℕ, zero, suc, ◌+◌, ◌-◌, ◌^◌, Bool, ◌&&◌, Option, none, some, ltb, leb, ◌==◌, if◌then◌else◌,
}
use gophersat.Prelude.Run.{Run, ok, out_of_fuel, ◌>>=◌}

-- `for k := 1; k < 32; k++`, for the values of k that are left.
unfoldable pub end_of_row : ℕ → ℕ → ℕ → Option ℕ
end_of_row zero k i = none
end_of_row (suc left) k i =
    let rest = end_of_row left (k + 1) i in if i == 2 ^ k - 1 then some (2 ^ (k - 1)) else rest

-- The loop from k := 1 on: the k for which the function calls itself.
unfoldable pub find_row : ℕ → ℕ → ℕ → Run ℕ
find_row zero k i = out_of_fuel
find_row (suc fuel) k i =
    let rest = find_row fuel (k + 1) i in
    if leb (2 ^ (k - 1)) i && ltb i (2 ^ k - 1) then ok k else rest

unfoldable pub luby : ℕ → ℕ → Run ℕ
luby zero i = out_of_fuel
luby (suc fuel) i = elim (end_of_row 31 1 i) [
  | some v ↦ ok v
  | none ↦ find_row 63 1 i >>= λ k. luby fuel (i - 2 ^ (k - 1) + 1)
]
