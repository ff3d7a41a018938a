-- ===== src/Registry/Operations.antt =====
-- The calls that other components make on the registry of jobs.py, as data: the API, the workers,
-- startup recovery and the watchdog interleave them in any order.
use resu_align_lite.Prelude.{ℕ, String, Option, List, [], ◌∷◌}
use resu_align_lite.Registry.Rows.{Registry}
use resu_align_lite.Registry.Methods.{
  create, delete_payload, claim_running, requeue_interrupted, update_progress, succeed, fail,
  cancel, delete, clear,
}
use resu_align_lite.Registry.Reads.{get}

-- Each call with its clock reading first, where it takes one.
pub data Call : Type 0 where
  creates :
      ℕ → String → String → Option String → Option String → Option String → Option String → Call
  drops_payload : String → Call
  claims : ℕ → String → Call
  requeues : String → Option String → Call
  progresses : String → String → String → Call
  succeeds : ℕ → String → Option String → Call
  fails : ℕ → String → String → Option String → Call
  cancels : ℕ → String → Call
  deletes : String → Option String → Call
  gets : ℕ → String → Option String → Call
  clears : Call

-- The registry after a call. A `snapshot` changes it as a `get` does.
unfoldable pub step : Registry → Call → Registry
step reg (creates now id payload tenant application request current) =
    (create now id payload tenant application request current reg).0
step reg (drops_payload id) = delete_payload id reg
step reg (claims now id) = (claim_running now id reg).0
step reg (requeues id request) = (requeue_interrupted id request reg).0
step reg (progresses id stage message) = update_progress id stage message reg
step reg (succeeds now id result) = succeed now id result reg
step reg (fails now id error stage) = (fail now id error stage reg).0
step reg (cancels now id) = (cancel now id reg).0
step reg (deletes id tenant) = (delete id tenant reg).0
step reg (gets now id tenant) = (get now id tenant reg).0
step reg clears = clear reg

unfoldable pub run : Registry → List Call → Registry
run reg [] = reg
run reg (c ∷ cs) = run (step reg c) cs
