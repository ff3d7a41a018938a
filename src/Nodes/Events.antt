-- ===== src/Nodes/Events.antt =====
-- The calls and probes that the breaker of engine/llm_nodes.py hears of, and what each means to it.
use resu_align_lite.Prelude.{ℕ, suc, String, ◌&&◌, Option, List, [], ◌∷◌, if◌then◌else◌}
use resu_align_lite.Prelude.Table.{same}
use resu_align_lite.Delivery.Vocabulary.{member}
use resu_align_lite.Nodes.Breaker.{breaker_counted_codes, probe_status_counts}

pub data EventKind : Type 0 where
  call_failed : String → EventKind
  call_succeeded : EventKind
  probed : String → Option ℕ → ℕ → EventKind

pub record Event : Type 0 where
  pub tenant : String
  pub node : String
  pub kind : EventKind

abbrev pub event_at : String → String → EventKind → Event
event_at u j kind = record { tenant = u; node = j; kind = kind }

-- What an event means to the breaker.
pub data Signal : Type 0 where
  counted cleared ignored : Signal

abbrev pub signal_of : EventKind → Signal
signal_of (call_failed code) = if member code breaker_counted_codes then counted else ignored
signal_of call_succeeded = cleared
signal_of (probed status latency now) =
    if same status "ok" then cleared else if probe_status_counts status then counted else ignored

abbrev pub add_signal : Signal → ℕ → ℕ
add_signal counted n = suc n
add_signal cleared n = 0
add_signal ignored n = n

-- The counted failures of a node since its last success, after events on any nodes.
unfoldable pub streak : String → String → List Event → ℕ → ℕ
streak tenant id [] n = n
streak tenant id (e ∷ es) n =
    streak tenant id es
      (if same e.tenant tenant && same e.node id then add_signal (signal_of e.kind) n else n)
