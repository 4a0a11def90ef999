-- ===== src/Tracker/Table/History.antt =====
-- A history of packets is a run of the abstract table, so the table answers only after an RTU, and the flows that the
-- tracker has made are no more than the packets.
use libconntrack_cm.Base.{
  ℕ, ◌+◌, ◌≤◌, ◌≡◌, refl, Bool, false, ◌||◌, none, List, [], ◌∷◌, ◌==◌, arith, length,
}
use libconntrack_cm.Packet.{Dpdk, DynfieldOffsets, Mbuf, ok, stop, Result}
use libconntrack_cm.Store.{Tracker, FlowKey, empty_tracker}
use libconntrack_cm.Tracker.{get_source_qpn}
use libconntrack_cm.Tracker.Message.{get_attr_id}
use libconntrack_cm.Tracker.Dispatch.{Direction, process_all, cm_rtu_attr_id}
use libconntrack_cm.Tracker.Ensures
use libconntrack_cm.Tracker.Ensures.{Ensures, done, result}
use libconntrack_cm.Tracker.Invariant.{Inv, empty_tracker-Inv}
use libconntrack_cm.Tracker.Steps.Process.{process-Steps}
use libconntrack_cm.Tracker.Table.{Table, TableStep, TableRun, finished, next, stays, opens, closes}
use libconntrack_cm.Tracker.Table.Refines.{process-Acts}

abbrev is_rtu : Result ℕ → Bool
is_rtu (ok a) = a == cm_rtu_attr_id
is_rtu (stop fault) = false

-- Whether a history has an RTU.
unfoldable pub has_rtu : DynfieldOffsets → List (Mbuf × Direction) → Bool
has_rtu parser [] = false
has_rtu parser ((m, dir) ∷ rest) = is_rtu (get_attr_id parser m) || has_rtu parser rest

record IsHistory (parser : DynfieldOffsets) (ms : List (Mbuf × Direction)) (t u : Tracker)
    : Type 0 where
  run : TableRun parser ms t.qpn_map u.qpn_map
  bounded : u.next ≤ t.next + length ms

-- A step without an RTU keeps an empty table empty, and so does a run.
step-empty :
    {a : ℕ} {q r : Table}
    → TableStep a q r
    → (a == cm_rtu_attr_id) ≡ false
    → ((k : FlowKey) → q k ≡ none)
    → (k : FlowKey) → r k ≡ none
step-empty stays other empty k = empty k
step-empty (opens j v is free ne) other empty k = ground arith
step-empty {q} (closes j ends here) other empty k = ground (arith, empty k)

run-empty :
    {parser : DynfieldOffsets} {ms : List (Mbuf × Direction)} {q r : Table}
    → TableRun parser ms q r
    → has_rtu parser ms ≡ false
    → ((k : FlowKey) → q k ≡ none)
    → (k : FlowKey) → r k ≡ none
unfolding has_rtu
run-empty finished none_rtu empty k = empty k
run-empty {parser} (next {m} {rest} {a} is step run) none_rtu empty k =
    let other : is_rtu (get_attr_id parser m) ≡ false = ground arith in
    run-empty run (ground arith) (step-empty step (ground (arith, is)) empty) k

module _ (d : Dpdk) (parser : DynfieldOffsets) where
  process_all-IsHistory :
      (ms : List (Mbuf × Direction)) (t : Tracker)
      → Inv t
      → Ensures (λ _ u. IsHistory parser ms t u) (process_all d parser ms t)
  unfolding process_all
  process_all-IsHistory [] t i = done (record { run = finished; bounded = omega arith })
  process_all-IsHistory ((m, dir) ∷ ms) t i =
      Ensures.bind
        (Ensures.both (process-Acts d parser m dir t i) (process-Steps d parser m dir t i))
        λ _ u ((a, is, act), step). Ensures.mono (process_all-IsHistory ms u step.inv) λ _ v s.
          record { run = next is act.table s.run; bounded = omega (arith, act.bounded, s.bounded) }

  module _ (ms : List (Mbuf × Direction)) {u : Tracker}
      (run : process_all d parser ms empty_tracker ≡ ok (tt, u)) where
    -- After any history of packets that the new tracker processes without a failure, the QPN table is one that a run
    -- of the abstract table over these packets gives, from the empty table.
    pub process_all-refines : TableRun parser ms (λ _. none) u.qpn_map
    process_all-refines =
        (result (process_all-IsHistory ms empty_tracker empty_tracker-Inv) run).run

    -- After any such history the tracker has made at most as many flows as there were packets.
    pub process_all-bounded : u.next ≤ length ms
    process_all-bounded =
        let bounded =
          (result (process_all-IsHistory ms empty_tracker empty_tracker-Inv) run).bounded in
        omega arith

    -- After any such history without an RTU, every query gives 0.
    pub get_source_qpn_silent : has_rtu parser ms ≡ false → (k : FlowKey) → get_source_qpn u k ≡ 0
    unfolding get_source_qpn
    get_source_qpn_silent none_rtu k =
        rw (run-empty process_all-refines none_rtu (λ j. refl) k, get_source_qpn) refl
