-- ===== src/Delivery/Bulk.antt =====
-- What `bulk_update_status` of job_library/__init__.py reports, and which rows it leaves alone.
use resu_align_lite.Prelude.Booleans.{or_true}
use resu_align_lite.Prelude.{
  ℕ, String, ◌≡◌, refl, sym, ◌∙◌, inl, inr, Bool, true, false, not, ◌&&◌, Option, none, some, List,
  [], ◌∷◌, map, arith, Bool-cases, Option-cases, String_discrete,
}
use resu_align_lite.Prelude.Table.{same_eq, same_refl, same, All, filter, any, All-map}
use resu_align_lite.Prelude.Table.{any-update_where, filter-update}
use resu_align_lite.Delivery.Vocabulary.{member, canonical_status, validate_status}
use resu_align_lite.Delivery.Writes.{
  LibraryRow, Library, BulkOutcome, updated, not_found, conflict, moved, fetch, bulk_row, bulk_loop,
  bulk_update_status, is_row, differs, re_records, check_expected, after, reports,
}

-- The row found is one of the tenant and id asked for.
abbrev pub matches : String → String → Option LibraryRow → Bool
matches t i none = true
matches t i (some r) = is_row t i r

pub fetch-matches :
    (tenant_id job_id : String) (rs : List LibraryRow)
    → matches tenant_id job_id (fetch tenant_id job_id rs) ≡ true
fetch-matches t i [] = refl
fetch-matches t i (x ∷ rs) = elim (Bool-cases (is_row t i x)) [
  | inl e ↦ rw (e, e) refl
  | inr e ↦ rw e (fetch-matches t i rs)
]

abbrev is_missing : Option LibraryRow → Bool
is_missing none = true
is_missing (some r) = false

fetch-any :
    (tenant_id job_id : String) (rs : List LibraryRow)
    → is_missing (fetch tenant_id job_id rs) ≡ not (any (is_row tenant_id job_id) rs)
fetch-any t i [] = refl
fetch-any t i (x ∷ rs) = elim (Bool-cases (is_row t i x)) [
  | inl e ↦ rw e refl
  | inr e ↦ rw e (fetch-any t i rs)
]

-- Rows with one id and tenant answer every other lookup alike.
same_key :
    (t i : String) (r x new : LibraryRow)
    → new.job_id ≡ r.job_id
    → new.tenant_id ≡ r.tenant_id
    → is_row r.tenant_id r.job_id x ≡ true
    → is_row t i new ≡ is_row t i x
unfolding String_discrete
same_key t i r x new hj ht e = ground arith

-- The rows a call for these jobs of the tenant cannot touch.
abbrev pub outside : String → List String → LibraryRow → Bool
outside tenant_id ids r = not (same r.tenant_id tenant_id && member r.job_id ids)

abbrev pub is_not_found : BulkOutcome → Bool
is_not_found (updated r) = false
is_not_found not_found = true
is_not_found (conflict r) = false

both : (a b : Bool) → a && b ≡ true → (a ≡ true) × (b ≡ true)
both a b h = ground arith

in_scope :
    (t i : String) (ids : List String) (r : LibraryRow)
    → is_row t i r ≡ true
    → member i ids ≡ true
    → outside t ids r ≡ false
in_scope t i ids r m k =
    let h = both (same r.job_id i) (same r.tenant_id t) m in
    rw (h.1, sym (same_eq r.job_id i h.0), k) refl

module _ (status : String) (expected : Option String) (today : String) (now : ℕ) where
  -- One turn keeps the keys of the rows.
  bulk_row-keys :
      (o : Option LibraryRow) (l : Library) (t i : String)
      → any (is_row t i) (bulk_row status expected today now o l).1.rows ≡ any (is_row t i) l.rows
  bulk_row-keys none l t i = refl
  bulk_row-keys (some r) l t i = elim (Bool-cases (differs expected r)) [
    | inl e ↦ rw e refl
    | inr e ↦ elim (Bool-cases (re_records status r)) [
      | inl f ↦ rw (e, f) refl
      | inr f ↦
          rw (e, f)
            (any-update_where (is_row t i) (is_row r.tenant_id r.job_id)
              (λ old. moved status today now r)
              (λ x m. same_key t i r x (moved status today now r) refl refl m) l.rows)
    ]
  ]

  bulk_row-report :
      (o : Option LibraryRow) (l : Library)
      → is_not_found (bulk_row status expected today now o l).0 ≡ is_missing o
  bulk_row-report none l = refl
  bulk_row-report (some r) l = elim (Bool-cases (differs expected r)) [
    | inl e ↦ rw e refl
    | inr e ↦ elim (Bool-cases (re_records status r)) [
      | inl f ↦ rw (e, f) refl
      | inr f ↦ rw (e, f) refl
    ]
  ]

  bulk_row-outside :
      (t i : String) (ids : List String) (o : Option LibraryRow) (l : Library)
      → matches t i o ≡ true
      → member i ids ≡ true
      → filter (outside t ids) (bulk_row status expected today now o l).1.rows
        ≡ filter (outside t ids) l.rows
  bulk_row-outside t i ids none l m k = refl
  bulk_row-outside t i ids (some r) l m k = elim (Bool-cases (differs expected r)) [
    | inl e ↦ rw e refl
    | inr e ↦ elim (Bool-cases (re_records status r)) [
      | inl f ↦ rw (e, f) refl
      | inr f ↦
          rw (e, f)
            (filter-update (outside t ids) (is_row r.tenant_id r.job_id)
              (λ old. moved status today now r)
              (λ x n. (
                in_scope t i ids x (sym (same_key t i r x r refl refl n) ∙ m) k,
                in_scope t i ids (moved status today now r) m k,
              ))
              l.rows)
    ]
  ]

-- A report, cut down to whether the job was missing.
abbrev pub missed : String × BulkOutcome → String × Bool
missed p = (p.0, is_not_found p.1)

-- What it should say of an id.
abbrev pub lacks_row : String → List LibraryRow → String → String × Bool
lacks_row tenant_id rs i = (i, not (any (is_row tenant_id i) rs))

lacks_row-congr :
    (t : String) (rs qs : List LibraryRow) (ids : List String)
    → ((i : String) → any (is_row t i) rs ≡ any (is_row t i) qs)
    → map (λ i. lacks_row t rs i) ids ≡ map (λ i. lacks_row t qs i) ids
lacks_row-congr t rs qs [] h = refl
lacks_row-congr t rs qs (i ∷ ids) h = rw (h i, lacks_row-congr t rs qs ids h) refl

module _ (tenant_id status : String) (expected : Option String) (today : String) (now : ℕ) where
  bulk_loop-outside :
      (all ids : List String) (l : Library)
      → All (λ i. member i all ≡ true) ids
      → filter (outside tenant_id all) (bulk_loop tenant_id ids status expected today now l).1.rows
        ≡ filter (outside tenant_id all) l.rows
  unfolding bulk_loop
  bulk_loop-outside all [] l k = refl
  bulk_loop-outside all (id ∷ ids) l k =
      let o = fetch tenant_id id l.rows in
      bulk_loop-outside all ids (bulk_row status expected today now o l).1 k.1
      ∙ bulk_row-outside status expected today now tenant_id id all o l
          (fetch-matches tenant_id id l.rows) k.0

  bulk_loop-reports :
      (ids : List String) (l : Library)
      → map missed (bulk_loop tenant_id ids status expected today now l).0
        ≡ map (λ i. lacks_row tenant_id l.rows i) ids
  unfolding bulk_loop
  bulk_loop-reports [] l = refl
  bulk_loop-reports (id ∷ ids) l =
      let o = fetch tenant_id id l.rows in
      let next = (bulk_row status expected today now o l).1 in
      rw
        (
          bulk_row-report status expected today now o l,
          fetch-any tenant_id id l.rows,
          bulk_loop-reports ids next,
          lacks_row-congr tenant_id next.rows l.rows ids
              (λ i. bulk_row-keys status expected today now o l tenant_id i),
        )
        refl

member_after :
    (x : String) (xs ids : List String)
    → All (λ i. member i xs ≡ true) ids
    → All (λ i. member i (x ∷ xs) ≡ true) ids
member_after x xs ids h =
    All-map (λ i. member i xs ≡ true) (λ i. member i (x ∷ xs) ≡ true)
      (λ i m. rw m (or_true (same x i))) ids h

own_ids : (ids : List String) → All (λ i. member i ids ≡ true) ids
own_ids [] = tt
own_ids (i ∷ ids) = (rw (same_refl i) refl, member_after i ids ids (own_ids ids))

-- A bulk update leaves every row of another tenant, and every row whose id it was not given, as it
-- was and in its place, also where it fails.
pub bulk_update_status-outside :
    (tenant_id : String) (ids : List String) (status : String) (expected : Option String)
    (today : String) (now : ℕ) (l : Library)
    → filter
        (outside tenant_id ids)
        (after (bulk_update_status tenant_id ids status expected today now l) l).rows
      ≡ filter (outside tenant_id ids) l.rows
unfolding bulk_update_status
bulk_update_status-outside tenant_id [] status expected today now l = refl
bulk_update_status-outside tenant_id (id ∷ ids) status expected today now l =
    elim (Option-cases (validate_status status)) [
      | inl e ↦ rw e refl
      | inr v ↦ elim (Option-cases (check_expected expected)) [
        | inl f ↦ rw (v.1, f) refl
        | inr w ↦
            rw (v.1, w.1)
              (bulk_loop-outside tenant_id (canonical_status v.0) w.0 today now (id ∷ ids)
                (id ∷ ids) l (own_ids (id ∷ ids)))
      ]
    ]

-- A bulk update whose status and expected status pass their checks reports on the ids in the order
-- given, one report for each, and reports not_found exactly for those without a row of the tenant.
pub bulk_update_status-reports :
    (tenant_id : String) (ids : List String) (status : String) (expected : Option String)
    (today : String) (now : ℕ) (l : Library) (s : String) (e : Option String)
    → validate_status status ≡ some s
    → check_expected expected ≡ some e
    → map missed (reports (bulk_update_status tenant_id ids status expected today now l))
      ≡ map (λ i. lacks_row tenant_id l.rows i) ids
unfolding bulk_update_status
bulk_update_status-reports tenant_id [] status expected today now l s e hs he = refl
bulk_update_status-reports tenant_id (id ∷ ids) status expected today now l s e hs he =
    rw (hs, he) (bulk_loop-reports tenant_id (canonical_status s) e today now (id ∷ ids) l)
