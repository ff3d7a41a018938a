-- ===== src/Budget/Failures.antt =====
-- Which tasks the entry of cost_guard.py admits, by the runs of their key.
use resu_align_lite.Prelude.{
  String, Bool, true, false, not, ◌&&◌, Option, none, some, List, [], ◌∷◌, ◌==◌, length,
}
use resu_align_lite.Prelude.Table.{same}
use resu_align_lite.Registry.Rows.{Status, failed, Job, Registry}
use resu_align_lite.Registry.FailStreak.{recent_runs}
use resu_align_lite.Budget.Usage.{Usage}
use resu_align_lite.Budget.Guard.{Verdict, admitted, cap_reached, repeated_failures}

abbrev pub is_admitted : Verdict → Bool
is_admitted (admitted b) = true
is_admitted cap_reached = false
is_admitted repeated_failures = false

abbrev pub is_failed : Status → Bool
is_failed failed = true
is_failed _ = false

abbrev pub all_failed : List Job → Bool
all_failed [] = true
all_failed (j ∷ js) = is_failed j.status && all_failed js

-- The three newest ended runs of a key have failed.
unfoldable pub has_failed_thrice : String → Option String → Registry → Bool
has_failed_thrice t none reg = false
has_failed_thrice t (some key) reg =
    not (same key "") && (length (recent_runs t key reg) == 3 && all_failed (recent_runs t key reg))
