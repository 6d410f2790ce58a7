-- ===== src/Tests/Scanner.antt =====
-- The scanner at concrete inputs.
use mesflow_kiosk_runtime_v.Prelude.{◌≡◌, refl, List, [], ◌∷◌, ◌++◌, All, codes}
use mesflow_kiosk_runtime_v.Scanner.{poll, init}
use mesflow_kiosk_runtime_v.Scanner.Lines.{
  ScannerStep, started, poll_at, new_scanner, run, IsLine, run-IsLine,
}

abbrev two_scans : List ScannerStep
two_scans =
    started 115200
    ∷ poll_at 5000 (codes "EMP-")
    ∷ poll_at 5010 (codes "7" ++ 13 ∷ 10 ∷ [])
    ∷ poll_at 5500 (codes "EMP-7" ++ 13 ∷ [])
    ∷ poll_at 6000 (codes "OP-1")
    ∷ poll_at 6300 []
    ∷ []

run-IsLine_example : All IsLine (run two_scans new_scanner).emitted
run-IsLine_example = run-IsLine two_scans

-- A repeat within 1.5 seconds is left out, and a line without an end is emitted after a while.
repeat_left_out : (run two_scans new_scanner).emitted ≡ codes "OP-1" ∷ codes "EMP-7" ∷ []
unfolding poll init
repeat_left_out = refl
