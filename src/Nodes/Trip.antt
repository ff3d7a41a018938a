-- ===== src/Nodes/Trip.antt =====
-- The breaker of engine/llm_nodes.py against its specification: a node is disabled exactly when it
-- has failed often enough since its last success.
use resu_align_lite.Prelude.{
  ℕ, suc, String, ◌≡◌, refl, sym, ap, ◌∙◌, inl, inr, Bool, true, false, ◌&&◌, ◌||◌, Option, none,
  some, List, [], ◌∷◌, arith, ltb, leb, if◌then◌else◌, Bool-cases, Option-cases, String_discrete,
}
use resu_align_lite.Prelude.Table.{same, same_eq, All, update, All-update}
use resu_align_lite.Delivery.Vocabulary.{member}
use resu_align_lite.Nodes.{Node, is_node}
use resu_align_lite.Nodes.Breaker.{
  breaker_counted_codes, probe_status_counts, set_breaker, set_health, update_of, breaker_update,
  record_call_failure, record_call_success, record_node_health,
}
use resu_align_lite.Prelude.Table.{first, first-update}
use resu_align_lite.Prelude.Booleans.{and_left, and_right}
use resu_align_lite.Prelude.First.{first-update-hidden, All-first}
use resu_align_lite.Nodes.Events.{
  EventKind, call_failed, call_succeeded, probed, Event, event_at, counted, cleared, ignored,
  signal_of, add_signal, streak,
}

is_node_apart :
    (t i u j : String) (n : Node)
    → (same u t && same j i) ≡ false
    → is_node u j n ≡ true
    → is_node t i n ≡ false
unfolding String_discrete
is_node_apart t i u j n h k = ground arith

module _ (threshold : ℕ) where
  abbrev pub is_tripped : ℕ → Bool
  is_tripped n = ltb 0 n && leb threshold n

  abbrev pub IsSettled : Node → Type 0
  IsSettled n = n.auto_disabled ≡ is_tripped n.consecutive_failures

  unfoldable pub apply_event : Event → List Node → List Node
  unfolding record_call_failure record_call_success record_node_health breaker_update
  apply_event e ns = elim e.kind [
    | call_failed code ↦ record_call_failure threshold e.tenant e.node code ns
    | call_succeeded ↦ record_call_success threshold e.tenant e.node ns
    | probed status latency now ↦ record_node_health threshold e.tenant e.node status latency now ns
  ]

  unfoldable pub run_events : List Event → List Node → List Node
  unfolding apply_event
  run_events [] ns = ns
  run_events (e ∷ es) ns = run_events es (apply_event e ns)

  -- The count of a node and whether it is disabled.
  abbrev pub health : Option Node → Option (ℕ × Bool)
  health none = none
  health (some n) = some (n.consecutive_failures, n.auto_disabled)

  -- The health that the specification gives.
  abbrev pub with_count : (ℕ → ℕ) → Option (ℕ × Bool) → Option (ℕ × Bool)
  with_count f none = none
  with_count f (some h) = some (f h.0, is_tripped (f h.0))

  trips_once_more :
      (d : Bool) (k : ℕ) → d ≡ is_tripped k → (d || leb threshold (suc k)) ≡ is_tripped (suc k)
  trips_once_more d k h = ground arith

  set_breaker-IsSettled :
      (fails : ℕ) (d : Bool) (p : Node → Bool) (ns : List Node)
      → d ≡ is_tripped fails
      → All IsSettled ns
      → All IsSettled (update p (set_breaker fails d) ns)
  set_breaker-IsSettled fails d p ns h all =
      All-update IsSettled p (set_breaker fails d) (λ x e s. h) ns all

  tested-IsSettled :
      (u j status : String) (latency : Option ℕ) (now : ℕ) (ns : List Node)
      → All IsSettled ns
      → All IsSettled (update (is_node u j) (set_health status latency now) ns)
  tested-IsSettled u j status latency now ns all =
      All-update IsSettled (is_node u j) (set_health status latency now) (λ x e s. s) ns all

  breaker_update-IsSettled :
      (c : Bool) (u j : String) (ns : List Node)
      → All IsSettled ns
      → All IsSettled (breaker_update threshold c u j ns).0
  unfolding breaker_update
  breaker_update-IsSettled c u j ns all = elim (Option-cases (first (is_node u j) ns)) [
    | inl e ↦ rw e all
    | inr (row, e) ↦ rw e (by_kind c row (All-first IsSettled (is_node u j) ns all e))
  ]
    where
      by_kind :
          (c : Bool) (row : Node)
          → IsSettled row
          → All IsSettled (update_of threshold c u j (some row) ns).0
      by_kind true row s =
          set_breaker-IsSettled (suc row.consecutive_failures) _ (is_node u j) ns
            (trips_once_more row.auto_disabled row.consecutive_failures s) all
      by_kind false row s = set_breaker-IsSettled 0 false (is_node u j) ns refl all

  module _ (t i : String) where
    abbrev pub seen : List Node → Option (ℕ × Bool)
    seen ns = health (first (is_node t i) ns)

    keep_count : (ns : List Node) → All IsSettled ns → with_count (λ k. k) (seen ns) ≡ seen ns
    keep_count ns all = elim (Option-cases (first (is_node t i) ns)) [
      | inl e ↦ rw e refl
      | inr (row, e) ↦
          let s : IsSettled row = All-first IsSettled (is_node t i) ns all e in rw (e, s) refl
    ]

    set_breaker_own :
        (fails : ℕ) (d : Bool) (ns : List Node)
        → seen (update (is_node t i) (set_breaker fails d) ns)
          ≡ elim (first (is_node t i) ns) [ none ↦ none | some n ↦ some (fails, d) ]
    set_breaker_own fails d ns =
        rw (first-update (is_node t i) (set_breaker fails d) (λ x. refl) ns)
          (elim (Option-cases (first (is_node t i) ns)) [
            | inl e ↦ rw e refl
            | inr (n, e) ↦ rw e refl
          ])

    set_breaker_apart :
        (u j : String) (fails : ℕ) (d : Bool) (ns : List Node)
        → (same u t && same j i) ≡ false
        → seen (update (is_node u j) (set_breaker fails d) ns) ≡ seen ns
    set_breaker_apart u j fails d ns h =
        rw
          (first-update-hidden (is_node t i) (is_node u j) (set_breaker fails d)
            (λ x k. (is_node_apart t i u j x h k, is_node_apart t i u j x h k)) ns)
          refl

    -- The count after an event that fails or succeeds at the node.
    abbrev count_after : Bool → ℕ → ℕ
    count_after true k = suc k
    count_after false k = 0

    breaker_update_own :
        (c : Bool) (ns : List Node)
        → All IsSettled ns
        → seen (breaker_update threshold c t i ns).0 ≡ with_count (count_after c) (seen ns)
    unfolding breaker_update
    breaker_update_own c ns all = elim (Option-cases (first (is_node t i) ns)) [
      | inl e ↦ rw (e, e) refl
      | inr (row, e) ↦ by_kind c row e (All-first IsSettled (is_node t i) ns all e)
    ]
      where
        by_kind :
            (c : Bool) (row : Node)
            → first (is_node t i) ns ≡ some row
            → IsSettled row
            → seen (update_of threshold c t i (first (is_node t i) ns) ns).0
              ≡ with_count (count_after c) (seen ns)
        by_kind true row e s =
            let d : (row.auto_disabled || leb threshold (suc row.consecutive_failures))
                ≡ is_tripped (suc row.consecutive_failures) =
              trips_once_more row.auto_disabled row.consecutive_failures s in
            rw (e, set_breaker_own (suc row.consecutive_failures) _ ns, e, d) refl
        by_kind false row e s = rw (e, set_breaker_own 0 false ns, e) refl

    breaker_update_apart :
        (c : Bool) (u j : String) (ns : List Node)
        → (same u t && same j i) ≡ false
        → seen (breaker_update threshold c u j ns).0 ≡ seen ns
    unfolding breaker_update
    breaker_update_apart c u j ns h = elim (Option-cases (first (is_node u j) ns)) [
      | inl e ↦ rw e refl
      | inr (row, e) ↦ rw e (by_kind c row)
    ]
      where
        by_kind :
            (c : Bool) (row : Node) → seen (update_of threshold c u j (some row) ns).0 ≡ seen ns
        by_kind true row = set_breaker_apart u j _ _ ns h
        by_kind false row = set_breaker_apart u j _ _ ns h

    breaker_update-seen :
        (c : Bool) (u j : String) (ns : List Node)
        → All IsSettled ns
        → seen (breaker_update threshold c u j ns).0
          ≡ with_count (λ k. if same u t && same j i then count_after c k else k) (seen ns)
    breaker_update-seen c u j ns all = elim (Bool-cases (same u t && same j i)) [
      | inl e ↦
          rw
            (
              e,
              sym (same_eq u t (and_left (same u t) (same j i) e)),
              sym (same_eq j i (and_right (same u t) (same j i) e)),
            )
            (breaker_update_own c ns all)
      | inr e ↦ rw e (breaker_update_apart c u j ns e ∙ sym (keep_count ns all))
    ]

    set_health-seen :
        (u j status : String) (latency : Option ℕ) (now : ℕ) (ns : List Node)
        → seen (update (is_node u j) (set_health status latency now) ns) ≡ seen ns
    set_health-seen u j status latency now [] = refl
    set_health-seen u j status latency now (n ∷ ns) = elim (Bool-cases (is_node u j n)) [
      | inl e ↦ elim (Bool-cases (is_node t i n)) [
        | inl k ↦ rw (e, k) refl
        | inr k ↦ rw (e, k) (set_health-seen u j status latency now ns)
      ]
      | inr e ↦ elim (Bool-cases (is_node t i n)) [
        | inl k ↦ rw (e, k) refl
        | inr k ↦ rw (e, k) (set_health-seen u j status latency now ns)
      ]
    ]

    -- What an event means to the node.
    abbrev meant : Event → ℕ → ℕ
    meant e k = if same e.tenant t && same e.node i then add_signal (signal_of e.kind) k else k

    unheard :
        (b : Bool) (ns : List Node)
        → All IsSettled ns
        → seen ns ≡ with_count (λ k. if b then k else k) (seen ns)
    unheard true ns all = sym (keep_count ns all)
    unheard false ns all = sym (keep_count ns all)

    failed-seen :
        (u j : String) (c : Bool) (ns : List Node)
        → All IsSettled ns
        → seen (if c then (breaker_update threshold true u j ns).0 else ns)
          ≡ with_count
              (λ k.
                if same u t && same j i then add_signal (if c then counted else ignored) k else k)
              (seen ns)
    failed-seen u j true ns all = breaker_update-seen true u j ns all
    failed-seen u j false ns all = unheard (same u t && same j i) ns all

    probed-seen :
        (u j : String) (ok c : Bool) (ns : List Node)
        → All IsSettled ns
        → seen (
            if ok
            then (breaker_update threshold false u j ns).0
            else if c
            then (breaker_update threshold true u j ns).0
            else ns)
          ≡ with_count
              (λ k.
                if same u t && same j i
                then add_signal (if ok then cleared else if c then counted else ignored) k
                else k)
              (seen ns)
    probed-seen u j true c ns all = breaker_update-seen false u j ns all
    probed-seen u j false true ns all = breaker_update-seen true u j ns all
    probed-seen u j false false ns all = unheard (same u t && same j i) ns all

    event-seen :
        (u j : String) (kind : EventKind) (ns : List Node)
        → All IsSettled ns
        → seen (apply_event (event_at u j kind) ns)
          ≡ with_count (meant (event_at u j kind)) (seen ns)
    unfolding apply_event record_call_failure record_call_success record_node_health
    event-seen u j (call_failed code) ns all =
        failed-seen u j (member code breaker_counted_codes) ns all
    event-seen u j call_succeeded ns all = breaker_update-seen false u j ns all
    event-seen u j (probed status latency now) ns all =
        rw (set_health-seen u j status latency now ns) at (
          probed-seen u j (same status "ok") (probe_status_counts status)
            (update (is_node u j) (set_health status latency now) ns)
            (tested-IsSettled u j status latency now ns all))

  event-IsSettled :
      (u j : String) (kind : EventKind) (ns : List Node)
      → All IsSettled ns
      → All IsSettled (apply_event (event_at u j kind) ns)
  unfolding apply_event record_call_failure record_call_success record_node_health
  event-IsSettled u j (call_failed code) ns all =
      elim (Bool-cases (member code breaker_counted_codes)) [
        | inl h ↦ rw h (breaker_update-IsSettled true u j ns all)
        | inr h ↦ rw h all
      ]
  event-IsSettled u j call_succeeded ns all = breaker_update-IsSettled false u j ns all
  event-IsSettled u j (probed status latency now) ns all =
      let tested : List Node = update (is_node u j) (set_health status latency now) ns in
      let kept : All IsSettled tested = tested-IsSettled u j status latency now ns all in
      elim (Bool-cases (same status "ok")) [
        | inl h ↦ rw h (breaker_update-IsSettled false u j tested kept)
        | inr h ↦ elim (Bool-cases (probe_status_counts status)) [
          | inl m ↦ rw (h, m) (breaker_update-IsSettled true u j tested kept)
          | inr m ↦ rw (h, m) kept
        ]
      ]

  with_count-with_count :
      (f g : ℕ → ℕ) (o : Option (ℕ × Bool))
      → with_count g (with_count f o) ≡ with_count (λ k. g (f k)) o
  with_count-with_count f g none = refl
  with_count-with_count f g (some h) = refl

  -- In a table where each node is disabled exactly when its count has reached the threshold, the
  -- same is true after any calls and probes of any nodes, and the count of a node is then that of
  -- its counted failures since its last success.
  pub run_events-streak :
      (t i : String) (es : List Event) (ns : List Node)
      → All IsSettled ns
      → All IsSettled (run_events es ns)
        × (seen t i (run_events es ns) ≡ with_count (streak t i es) (seen t i ns))
  unfolding run_events streak
  run_events-streak t i [] ns all = (all, sym (keep_count t i ns all))
  run_events-streak t i (e ∷ es) ns all =
      let rest =
        run_events-streak t i es (apply_event e ns)
          (event-IsSettled e.tenant e.node e.kind ns all) in
      (
        rest.0,
        rest.1
            ∙ (ap (with_count (streak t i es)) (event-seen t i e.tenant e.node e.kind ns all)
                ∙ with_count-with_count (meant t i e) (streak t i es) (seen t i ns)),
      )
