-- ===== src/Tests/Batch.antt =====
-- A batch of three jobs, and the theorems of batch.py at it.
use resu_align_lite.Prelude.{
  ◌+◌, ◌≡◌, refl, true, false, none, some, [], ◌∷◌, arith, ltb, if◌then◌else◌, String_discrete,
}
use resu_align_lite.Prelude.Table.{same, All, any}
use resu_align_lite.Prelude.Int.{round_to}
use resu_align_lite.Batch.{
  Batch, BatchRow, BatchAlignStore, validate_job_ids, has_id, create, get, of_tenant,
  set_analysis_job, update_rows, batch_summary,
}
use resu_align_lite.Batch.Store.{made, get-create}
use resu_align_lite.Batch.Summary.{is_counted}

abbrev good : BatchRow
good = record {
  job_id = "a";
  status = some "succeeded";
  analysis_job_id = none;
  summary_score = some 8100;
  row_error = none;
}

abbrev better : BatchRow
better = record good { job_id = "b"; summary_score = some 9050 }

abbrev waiting : BatchRow
waiting = record good { job_id = "c"; status = some "queued"; summary_score = none }

abbrev three : Batch
three = record {
  batch_id = "x";
  tenant_id = "t";
  master_resume_id = "r";
  granularity = "fine";
  prompt_focus = "balanced";
  custom_prompt = none;
  created_at = 1;
  rows = good ∷ better ∷ waiting ∷ [];
}

abbrev shop : BatchAlignStore
shop = record { ttl_seconds = 100; batches = three ∷ [] }

best_is_b : (batch_summary three).best_job_id ≡ some "b"
unfolding batch_summary String_discrete
best_is_b = refl

averaged : (batch_summary three).average_score ≡ some 8575
unfolding batch_summary round_to String_discrete
averaged = refl

too_few :
    validate_job_ids (record { job_ids = "a" ∷ []; jd_urls = []; selector_pending = false }) ≡ false
unfolding validate_job_ids String_discrete
too_few = refl

linked : (set_analysis_job "x" "t" "b" "j1" shop).1 ≡ true
unfolding set_analysis_job String_discrete
linked = refl

replaced : (update_rows "x" "u" [] shop).1 ≡ false
unfolding update_rows String_discrete
replaced = refl

y_is_free : any (has_id "y") shop.batches ≡ false
unfolding String_discrete
y_is_free = refl

get-create_example :
    (get 9 "y" "t" (create 5 "y" "t" "r" (waiting ∷ []) "fine" "balanced" none shop)).1 ≡ (
      if same "y" "y"
      then of_tenant "t" (
          if ltb (5 + 100) 9
          then none
          else some (made 5 9 "y" "t" "r" "fine" "balanced" none (waiting ∷ []) shop "y" "t"))
      else (get 9 "y" "t" shop).1)
get-create_example =
    get-create 5 9 "y" "t" "r" "fine" "balanced" none (waiting ∷ []) shop "y" "t" (omega arith)
      y_is_free

all_counted : All (λ r. is_counted r ≡ true) three.rows
unfolding String_discrete
all_counted = (refl, (refl, (refl, tt)))
