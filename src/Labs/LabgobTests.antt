-- ===== src/Labs/LabgobTests.antt =====
-- The check of a type that refers to itself, at a concrete table of types.
use gopher.Prelude.{◌≡◌, refl, List, [], ◌∷◌, some, true, false, arith}
use gopher.Labs.Labgob.{Kind, struct, slice, other, Checks, visit, check_type}
use gopher.Labs.Labgob.Report.{IsReport, check_type-IsReport}

-- A node with a lower-case field, its own kind, and a list of it.
abbrev node : List Kind
node = struct ((true, 1) ∷ (false, 2) ∷ (false, 0) ∷ []) ∷ slice 0 ∷ other ∷ []

check_type-IsReport_example :
    (st : Checks) × (check_type node 4 0 (record { checked = []; error_count = 0 }) ≡ some st)
    × IsReport node 0 st
check_type-IsReport_example = check_type-IsReport node 4 0 (omega arith)

node_run :
    check_type node 4 0 (record { checked = []; error_count = 0 })
    ≡ some (record { checked = 2 ∷ 1 ∷ 0 ∷ []; error_count = 2 })
unfolding check_type visit
node_run = refl
