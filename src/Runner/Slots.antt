-- ===== src/Runner/Slots.antt =====
-- What a run of api/services/jobs.py does with the slot of the daily budget that was reserved for it.
use resu_align_lite.Prelude.{
  ℕ, zero, suc, length, ◌+◌, ◌-◌, String, ◌≡◌, refl, sym, ap, subst, ◌∙◌, inl, inr, Bool, true,
  false, Option, none, some, List, [], ◌∷◌, arith, ◌==◌, if◌then◌else◌, Bool-cases,
}
use resu_align_lite.Prelude.Table.{same, find}
use resu_align_lite.Prelude.Int.{ℤ}
use resu_align_lite.Registry.Rows.{Job, Registry, is_queued}
use resu_align_lite.Registry.Methods.{is_some_text, claim_running}
use resu_align_lite.Registry.Reads
use resu_align_lite.Budget.Usage.{
  Usage, new_usage, release_call, record_call, get_usage, token_count,
}
use resu_align_lite.Budget.Guard.{CostSettings, record_daily_llm_usage}
use resu_align_lite.Budget.Rows.{has, get_usage-none, get_usage-update_own}
use resu_align_lite.Budget.Effects.{upsert-own, own_key}
use resu_align_lite.Runner.{
  entry_key, last_stage, Request, Entry, World, Ending, produced, broke, Work, Executed, done,
  finalized, raised, announce, record_calls,
}
use resu_align_lite.Runner.Worker.{
  is_url_only, release_job_resources, release_slot, ended, execute_claimed_job, fail_claimed_job,
  persisted, finish, run_claimed, run_after, claim_queued_job, run_job_holding_gate, claim_entry,
  claim_found, claimed_as, entry_of,
}

-- The row after a number of recorded calls: each takes a reservation, as long as there is one.
abbrev Spent : ℕ → Usage → Usage → Type 0
Spent n x y = (y.calls ≡ x.calls + n) × (y.reserves ≡ x.reserves - n)

Spent-refl : (x : Usage) → Spent 0 x x
Spent-refl x = (omega arith, omega arith)

Spent-step :
    (n : ℕ) (x y z : Usage)
    → y.calls ≡ x.calls + 1
    → y.reserves ≡ x.reserves - 1
    → Spent n y z
    → Spent (suc n) x z
Spent-step n x y z c r h = (omega (arith, h.0), omega (arith, h.1))

uncalled : (x y : Usage) → Spent 0 x y → (y.calls == x.calls) ≡ false → ⊥
uncalled x y h e = ground (arith, h.0)

called : (n : ℕ) (x y : Usage) → Spent (suc n) x y → (y.calls == x.calls) ≡ true → ⊥
called n x y h e = ground (arith, h.0)

-- How many of some calls are recorded for a tenant: none for no tenant.
abbrev pub recorded : String → List (Option ℤ × Option ℤ) → ℕ
recorded tenant cs = if same tenant "" then 0 else length cs

-- The reservations that a number of calls takes of a task with a slot.
abbrev pub slots_used : ℕ → ℕ
slots_used zero = 1
slots_used (suc n) = suc n

module _ (t d : String) (now : ℕ) where
  release_call-row :
      (us : List Usage)
      → ((get_usage t d (release_call t d now us)).reserves ≡ (get_usage t d us).reserves - 1)
  unfolding release_call
  release_call-row us =
      ap (λ u. u.reserves)
        (get_usage-update_own t d (λ u. record u { reserves = u.reserves - 1; updated_at = now }) us
          (λ u. refl))
      ∙ elim (Bool-cases (has t d us)) [
        | inl e ↦ rw e refl
        | inr e ↦ rw (e, get_usage-none t d us e) refl
      ]

  record_call-row :
      (cost : ℕ) (tokens_in tokens_out : Option ℤ) (us : List Usage)
      → ((get_usage t d (record_call t d cost tokens_in tokens_out now us)).calls
          ≡ (get_usage t d us).calls + 1)
        × ((get_usage t d (record_call t d cost tokens_in tokens_out now us)).reserves
            ≡ (get_usage t d us).reserves - 1)
  unfolding record_call
  record_call-row cost tokens_in tokens_out us =
      let new : Usage = record (new_usage t d now) {
        calls = 1;
        estimated_cost = cost;
        tokens_in = token_count tokens_in;
        tokens_out = token_count tokens_out;
      } in
      let f : Usage → Usage = λ u. record u {
        calls = u.calls + 1;
        estimated_cost = u.estimated_cost + cost;
        reserves = u.reserves - 1;
        tokens_in = u.tokens_in + token_count tokens_in;
        tokens_out = u.tokens_out + token_count tokens_out;
        updated_at = now;
      } in
      let row = upsert-own t d new (λ u. true) f (λ u. refl) (own_key t d) us in
      elim (Bool-cases (has t d us)) [
        | inl e ↦ rw (row, e) (refl, refl)
        | inr e ↦ rw (row, e, get_usage-none t d us e) (refl, refl)
      ]

  recorded_row :
      (settings : CostSettings) (tokens_in tokens_out : Option ℤ) (us : List Usage)
      → same t "" ≡ false
      → ((get_usage t d (record_daily_llm_usage settings t tokens_in tokens_out d now us)).calls
          ≡ (get_usage t d us).calls + 1)
        × ((get_usage t d
              (record_daily_llm_usage settings t tokens_in tokens_out d now us)).reserves
            ≡ (get_usage t d us).reserves - 1)
  unfolding record_daily_llm_usage
  recorded_row settings tokens_in tokens_out us e = rw e (record_call-row _ tokens_in tokens_out us)

  no_tenant :
      (settings : CostSettings) (c : Option ℤ × Option ℤ) (us : List Usage)
      → same t "" ≡ true
      → record_daily_llm_usage settings t c.0 c.1 d now us ≡ us
  unfolding record_daily_llm_usage
  no_tenant settings c us e = rw e refl

  record_calls-Spent :
      (settings : CostSettings) (cs : List (Option ℤ × Option ℤ)) (us : List Usage)
      → Spent
          (recorded t cs)
          (get_usage t d us)
          (get_usage t d (record_calls settings t d now cs us))
  unfolding record_calls
  record_calls-Spent settings [] us = elim (Bool-cases (same t "")) [
    | inl e ↦ rw e (Spent-refl (get_usage t d us))
    | inr e ↦ rw e (Spent-refl (get_usage t d us))
  ]
  record_calls-Spent settings (c ∷ cs) us =
      let after = record_daily_llm_usage settings t c.0 c.1 d now us in
      let later = record_calls-Spent settings cs after in
      elim (Bool-cases (same t "")) [
        | inl e ↦
            let same_number : recorded t cs ≡ recorded t (c ∷ cs) = rw e refl in
            subst
              (λ n.
                Spent n (get_usage t d us) (get_usage t d (record_calls settings t d now cs after)))
              same_number
              (subst
                (λ vs.
                  Spent (recorded t cs) (get_usage t d vs)
                    (get_usage t d (record_calls settings t d now cs after)))
                (no_tenant settings c us e) later)
        | inr e ↦
            let row = recorded_row settings c.0 c.1 us e in
            let some_recorded : recorded t cs ≡ length cs = rw e refl in
            let all_recorded : suc (length cs) ≡ recorded t (c ∷ cs) = rw e refl in
            subst
              (λ n.
                Spent n (get_usage t d us) (get_usage t d (record_calls settings t d now cs after)))
              all_recorded
              (Spent-step (length cs) (get_usage t d us) (get_usage t d after)
                (get_usage t d (record_calls settings t d now cs after)) row.0 row.1
                (subst
                  (λ n.
                    Spent n (get_usage t d after)
                      (get_usage t d (record_calls settings t d now cs after)))
                  some_recorded later))
      ]

  -- A slot is given back when no call was made, and is among those used otherwise.
  release_slot-Spent :
      (n : ℕ) (us vs : List Usage)
      → Spent n (get_usage t d us) (get_usage t d vs)
      → (get_usage t d (release_slot t d now (some (get_usage t d us).calls) vs)).reserves
        ≡ (get_usage t d us).reserves - slots_used n
  unfolding get_usage
  release_slot-Spent zero us vs h =
      elim (Bool-cases ((get_usage t d vs).calls == (get_usage t d us).calls)) [
        | inl e ↦ rw e (omega (arith, release_call-row vs, h.1))
        | inr e ↦ absurd (uncalled (get_usage t d us) (get_usage t d vs) h e)
      ]
  release_slot-Spent (suc n) us vs h =
      elim (Bool-cases ((get_usage t d vs).calls == (get_usage t d us).calls)) [
        | inl e ↦ absurd (called n (get_usage t d us) (get_usage t d vs) h e)
        | inr e ↦ rw e (h.1)
      ]

  slot_released :
      (n : ℕ) (reserved : Bool) (us vs after : List Usage)
      → reserved ≡ true
      → after ≡ vs
      → Spent n (get_usage t d us) (get_usage t d vs)
      → (get_usage t d (
          release_slot t d now
            (if reserved then some (get_usage t d us).calls else none)
            after)).reserves
        ≡ (get_usage t d us).reserves - slots_used n
  slot_released n reserved us vs after r e h = rw (r, e) (release_slot-Spent n us vs h)

module _ (loads : String → Request) (settings : CostSettings) (work : Request → Work)
    (persist : Request → String → Option String) where
  claimed_usage :
      (e : Entry) (r : Registry × Bool) (w : World)
      → (claimed_as loads settings work persist e r w).0.usage ≡ w.usage
  claimed_usage e (reg, false) w = refl
  claimed_usage e (reg, true) w = refl

  claim_found_usage :
      (now : ℕ) (id : String) (e : Entry) (r : Registry × Option Job) (w : World)
      → (claim_found loads settings work persist now id e r w).0.usage ≡ w.usage
  claim_found_usage now id e (reg, none) w = refl
  claim_found_usage now id e (reg, some j) w = elim (Bool-cases (is_queued j.status)) [
    | inl h ↦ rw h (claimed_usage e (claim_running now id reg) w)
    | inr h ↦ rw h refl
  ]

  claim_usage :
      (now : ℕ) (id : String) (o : Option Entry) (w : World)
      → (claim_entry loads settings work persist now id o w).0.usage ≡ w.usage
  claim_usage now id none w = refl
  claim_usage now id (some e) w = claim_found_usage now id e (Reads.get now id none w.registry) w

  ended_usage :
      (now : ℕ) (id : String) (optimize : Bool) (o : Ending) (w : World)
      → (ended loads settings work persist now id optimize o w).0.usage ≡ w.usage
  ended_usage now id optimize (broke error) w = refl
  ended_usage now id true (produced r) w = refl
  ended_usage now id false (produced r) w = refl

  -- The calls that the run of an entry records.
  abbrev pub calls_of : Entry → ℕ
  calls_of e = if is_url_only e.request then 0 else recorded e.owner (work e.request).llm_calls

  execute_claimed_job-Spent :
      (now : ℕ) (day id : String) (e : Entry) (w : World)
      → Spent (calls_of e) (get_usage e.owner day w.usage) (
          get_usage e.owner day
            (execute_claimed_job loads settings work persist now day id e w).0.usage)
  unfolding execute_claimed_job
  execute_claimed_job-Spent now day id e w = elim (Bool-cases (is_url_only e.request)) [
    | inl h ↦ rw h (Spent-refl (get_usage e.owner day w.usage))
    | inr h ↦
        rw
          (
            h,
            ended_usage now id e.request.optimize_resume (work e.request).ending (record w {
              registry = announce id (work e.request).announced w.registry;
              usage = record_calls settings e.owner day now (work e.request).llm_calls w.usage;
            }),
          )
          (record_calls-Spent e.owner day now settings (work e.request).llm_calls w.usage)
  ]

  persisted_usage :
      (now : ℕ) (id : String) (e : Entry) (stage r : String) (o : Option String) (w : World)
      → (persisted loads settings work persist now id e stage r o w).usage ≡ w.usage
  unfolding fail_claimed_job
  persisted_usage now id e stage r none w = refl
  persisted_usage now id e stage r (some error) w = refl

  finish_usage :
      (now : ℕ) (id : String) (e : Entry) (stage : String) (r : World × Executed)
      → (finish loads settings work persist now id e stage r.1 r.0).usage ≡ r.0.usage
  unfolding fail_claimed_job
  finish_usage now id e stage (w, done r) =
      elim (Bool-cases (is_some_text e.request.library_job_id)) [
        | inl k ↦ rw k (persisted_usage now id e stage r (persist e.request r) w)
        | inr k ↦ rw k refl
      ]
  finish_usage now id e stage (w, finalized) = refl
  finish_usage now id e stage (w, raised error) = refl

  run_claimed-reserves :
      (now : ℕ) (day id : String) (e : Entry) (w : World)
      → e.request.llm_slot_reserved ≡ true
      → (get_usage e.owner day
          (run_claimed loads settings work persist now day day id e w).usage).reserves
        ≡ (get_usage e.owner day w.usage).reserves - slots_used (calls_of e)
  unfolding release_job_resources
  run_claimed-reserves now day id e w h =
      slot_released e.owner day now (calls_of e) e.request.llm_slot_reserved w.usage
        (execute_claimed_job loads settings work persist now day id e w).0.usage _ h
        (finish_usage now id e
          (if is_url_only e.request then "" else last_stage "" (work e.request).announced)
          (execute_claimed_job loads settings work persist now day id e w))
        (execute_claimed_job-Spent now day id e w)

  run_after-reserves :
      (now : ℕ) (day id : String) (r : World × Option Entry) (us : List Usage) (e : Entry)
      → r.1 ≡ some e
      → r.0.usage ≡ us
      → e.request.llm_slot_reserved ≡ true
      → (get_usage e.owner day
          (run_after loads settings work persist now day day id r).0.usage).reserves
        ≡ (get_usage e.owner day us).reserves - slots_used (calls_of e)
  run_after-reserves now day id r us e h u k =
      subst
        (λ o.
          (get_usage e.owner day
            (run_after loads settings work persist now day day id (r.0, o)).0.usage).reserves
          ≡ (get_usage e.owner day us).reserves - slots_used (calls_of e))
        (sym h)
        (subst
          (λ vs.
            (get_usage e.owner day
              (run_claimed loads settings work persist now day day id e r.0).usage).reserves
            ≡ (get_usage e.owner day vs).reserves - slots_used (calls_of e))
          u (run_claimed-reserves now day id e r.0 k))

  -- A run of a job that was queued with a reserved slot of the daily budget, and that begins and
  -- ends on one day, leaves exactly as many reservations fewer as calls were recorded in it, and one
  -- fewer when none was, as far as there are any: the slot is given back or used up on every way in
  -- which the run can end, and further calls take the reservations of other tasks.
  pub run_job_holding_gate-reserves :
      (now : ℕ) (day id : String) (w : World) (e : Entry)
      → (claim_queued_job loads settings work persist now id w).1 ≡ some e
      → e.request.llm_slot_reserved ≡ true
      → (get_usage e.owner day
          (run_job_holding_gate loads settings work persist now day day id w).0.usage).reserves
        ≡ (get_usage e.owner day w.usage).reserves - slots_used (calls_of e)
  unfolding run_job_holding_gate claim_queued_job
  run_job_holding_gate-reserves now day id w e h r =
      run_after-reserves now day id (claim_queued_job loads settings work persist now id w) w.usage
        e h
        (claim_usage now id
          (entry_of loads settings work persist id (find entry_key id w.payloads) w.registry) w)
        r
