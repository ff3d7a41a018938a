-- ===== src/Cache/Roundtrip.antt =====
-- What `get` of cache.py finds after `put`.
use resu_align_lite.Prelude.{
  ℕ, ◌+◌, ◌≤◌, String, ◌≡◌, refl, ◌∙◌, inl, inr, Bool, true, false, not, ◌&&◌, Option, none, some,
  List, [], ◌∷◌, ◌++◌, arith, ltb, if◌then◌else◌, Bool-cases, String_discrete,
}
use resu_align_lite.Prelude.Table.{same, same_sym, filter}
use resu_align_lite.Cache.{Entry, is_entry, select_payload, prune_expired, get, put}

select_payload-filter :
    (p q : Entry → Bool) (es : List Entry)
    → ((e : Entry) → p e ≡ true → q e ≡ true)
    → select_payload p (filter q es) ≡ select_payload p es
select_payload-filter p q [] h = refl
select_payload-filter p q (e ∷ es) h = elim (Bool-cases (q e)) [
  | inl k ↦ rw (k, select_payload-filter p q es h) refl
  | inr k ↦ elim (Bool-cases (p e)) [
    | inl m ↦ ground (arith, h e m)
    | inr m ↦ rw (k, m) (select_payload-filter p q es h)
  ]
]

select_payload-filter-none :
    (p q : Entry → Bool) (es : List Entry)
    → ((e : Entry) → q e ≡ true → p e ≡ false)
    → select_payload p (filter q es) ≡ none
select_payload-filter-none p q [] h = refl
select_payload-filter-none p q (e ∷ es) h = elim (Bool-cases (q e)) [
  | inl k ↦ rw (k, h e k) (select_payload-filter-none p q es h)
  | inr k ↦ rw k (select_payload-filter-none p q es h)
]

-- The answer of the rows, or that of the row after them.
abbrev otherwise : Option String → Option String → Option String
otherwise none o = o
otherwise (some s) o = some s

select_payload-append :
    (p : Entry → Bool) (es : List Entry) (e : Entry)
    → select_payload p (es ++ e ∷ [])
      ≡ otherwise (select_payload p es) (if p e then some e.payload else none)
select_payload-append p [] e = refl
select_payload-append p (x ∷ es) e = elim (Bool-cases (p x)) [
  | inl k ↦ rw k refl
  | inr k ↦ rw k (select_payload-append p es e)
]

-- An expired row answers no request, so a sweep not after the request is not seen.
pub get-prune_expired :
    (p : Entry → Bool) (now t : ℕ) (es : List Entry)
    → now ≤ t
    → select_payload (λ e. p e && ltb t e.expires_at) (prune_expired now es)
      ≡ select_payload (λ e. p e && ltb t e.expires_at) es
unfolding prune_expired
get-prune_expired p now t es le =
    select_payload-filter (λ e. p e && ltb t e.expires_at) (λ e. not (ltb e.expires_at now)) es
      (λ e h. ground arith)

-- Whether two keys are one.
abbrev pub same_slot : String → String → String → String → String → String → String → String → Bool
same_slot t m v d u n w f = same t u && same m n && same v w && same d f

-- A row of one key is a row of another exactly when the keys are one.
is_entry-same_slot :
    (t m v d u n w f : String) (e : Entry)
    → is_entry t m v d e ≡ true
    → is_entry u n w f e ≡ same_slot t m v d u n w f
unfolding String_discrete
is_entry-same_slot t m v d u n w f e h = ground arith

same_slot_sym : (t m v d u n w f : String) → same_slot t m v d u n w f ≡ same_slot u n w f t m v d
same_slot_sym t m v d u n w f = rw (same_sym t u, same_sym m n, same_sym v w, same_sym d f) refl

not_both : (b : Bool) → b ≡ true → not b ≡ true → ⊥
not_both b h k = ground arith

not_first : (a b : Bool) → a ≡ false → (a && b) ≡ true → ⊥
not_first a b h k = ground arith

last_one : (o : Option String) → otherwise o none ≡ o
last_one none = refl
last_one (some s) = refl

module _ (sha256 : String → String) (t m v c payload : String) (ttl now time : ℕ) (es : List Entry)
    (u n w b : String) where
  abbrev fresh : Entry
  fresh = record {
    tenant = t;
    model = m;
    prompt_version = v;
    content_sha256 = sha256 c;
    payload = payload;
    created_at = now;
    expires_at = now + ttl;
  }

  abbrev asks : Entry → Bool
  asks e = is_entry u n w (sha256 b) e && ltb time e.expires_at

  abbrev slot : Bool
  slot = same_slot t m v (sha256 c) u n w (sha256 b)

  asks-replaced :
      slot ≡ true → (x : Entry) → not (is_entry t m v (sha256 c) x) ≡ true → asks x ≡ false
  asks-replaced e x h = elim (Bool-cases (is_entry u n w (sha256 b) x)) [
    | inl k ↦
        let own : is_entry t m v (sha256 c) x ≡ true =
          is_entry-same_slot u n w (sha256 b) t m v (sha256 c) x k
          ∙ (same_slot_sym u n w (sha256 b) t m v (sha256 c) ∙ e) in
        absurd (not_both (is_entry t m v (sha256 c) x) own h)
    | inr k ↦ rw k refl
  ]

  asks_kept : slot ≡ false → (x : Entry) → asks x ≡ true → not (is_entry t m v (sha256 c) x) ≡ true
  asks_kept e x h = elim (Bool-cases (is_entry t m v (sha256 c) x)) [
    | inl k ↦
        let apart : is_entry u n w (sha256 b) x ≡ false =
          is_entry-same_slot t m v (sha256 c) u n w (sha256 b) x k ∙ e in
        absurd (not_first (is_entry u n w (sha256 b) x) (ltb time x.expires_at) apart h)
    | inr k ↦ rw k refl
  ]

  -- The rows other than the one replaced.
  replaced_rows :
      select_payload asks (filter (λ e. not (is_entry t m v (sha256 c) e)) es)
      ≡ (if slot then none else get sha256 u n w b time es)
  unfolding get
  replaced_rows = elim (Bool-cases slot) [
    | inl e ↦ rw e (
        select_payload-filter-none asks (λ x. not (is_entry t m v (sha256 c) x)) es
          (asks-replaced e))
    | inr e ↦
        rw e (select_payload-filter asks (λ x. not (is_entry t m v (sha256 c) x)) es (asks_kept e))
  ]

  -- The table as `put` leaves it without a sweep.
  abbrev stored_rows : List Entry
  stored_rows = filter (λ e. not (is_entry t m v (sha256 c) e)) es ++ fresh ∷ []

  found_in_stored : select_payload asks stored_rows ≡ (
      if slot
      then (if ltb time (now + ttl) then some payload else none)
      else get sha256 u n w b time es)
  found_in_stored =
      rw
        (
          select_payload-append asks (filter (λ e. not (is_entry t m v (sha256 c) e)) es) fresh,
          replaced_rows,
        )
        (elim (Bool-cases slot) [
          | inl e ↦ rw e refl
          | inr e ↦ rw e (last_one (get sha256 u n w b time es))
        ])

  -- After a payload is put, a later request with the same key gets it until the time to live is
  -- over and nothing from then on, and a request with another key gets what it would have got
  -- before, whether or not the put sweeps the expired rows. Two contents are the same key when their
  -- digests are equal.
  pub get-put :
      (sweep : Bool) (later : ℕ)
      → later ≤ time
      → get sha256 u n w b time (put sha256 t m v c payload ttl now sweep later es) ≡ (
          if same_slot t m v (sha256 c) u n w (sha256 b)
          then (if ltb time (now + ttl) then some payload else none)
          else get sha256 u n w b time es)
  unfolding get put
  get-put true later le =
      get-prune_expired (λ e. is_entry u n w (sha256 b) e) later time stored_rows le
      ∙ found_in_stored
  get-put false later le = found_in_stored
