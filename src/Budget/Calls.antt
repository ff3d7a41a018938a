-- ===== src/Budget/Calls.antt =====
-- Sequences of the writes of llm_usage.py, and what they commit for a tenant on a day.

use resu_align_lite.Prelude.{
  ℕ, ◌+◌, String, Bool, true, ◌&&◌, Option, List, [], ◌∷◌, leb, ◌==◌, if◌then◌else◌,
}
use resu_align_lite.Prelude.Table.{same}
use resu_align_lite.Prelude.Int.{ℤ, pos_part}
use resu_align_lite.Budget.Usage.{Usage, taken, reserve_call, release_call, record_call, get_usage}

-- A write of the store, by whichever thread the lock lets through next.
pub data Call : Type 0 where
  reserve : String → ℤ → String → Call
  release : String → String → Call
  spend : String → String → ℕ → Option ℤ → Option ℤ → Call

abbrev pub run_call : ℕ → Call → List Usage → List Usage
run_call now (reserve t cap d) us = (reserve_call t cap d now us).0
run_call now (release t d) us = release_call t d now us
run_call now (spend t d cost tokens_in tokens_out) us =
    record_call t d cost tokens_in tokens_out now us

unfoldable pub run_calls : List (ℕ × Call) → List Usage → List Usage
run_calls [] us = us
run_calls (c ∷ cs) us = run_calls cs (run_call c.0 c.1 us)

-- Calls made and promised for a tenant on a day.
abbrev pub committed : String → String → List Usage → ℕ
committed t d us = taken (get_usage t d us)

-- A call that asks for no more than the cap.
abbrev pub caps : ℕ → ℕ × Call → Bool
caps c (now, reserve t cap d) = leb (pos_part cap) c
caps c (now, release t d) = true
caps c (now, spend t d cost tokens_in tokens_out) = true

-- A recorded call of the tenant and day that found no reservation to consume.
abbrev pub unreserved : String → String → Call → List Usage → ℕ
unreserved t d (reserve u cap e) us = 0
unreserved t d (release u e) us = 0
unreserved t d (spend u e cost tokens_in tokens_out) us =
    if same u t && same e d && (get_usage t d us).reserves == 0 then 1 else 0

unfoldable pub count_unreserved : String → String → List (ℕ × Call) → List Usage → ℕ
count_unreserved t d [] us = 0
count_unreserved t d (c ∷ cs) us =
    unreserved t d c.1 us + count_unreserved t d cs (run_call c.0 c.1 us)
