-- ===== src/Tracker/Invariant/Write.antt =====
-- Writes to one flow object that keep the invariant.
use libconntrack_cm.Base.{◌≡◌, true, false, arith, update}
use libconntrack_cm.Store.{FlowState, Ptr, Tracker}
use libconntrack_cm.Tracker.Invariant.{settled, Inv}

abbrev pub put : Tracker → Ptr → FlowState → Tracker
put t p s = record t { cells = update t.cells p s }

-- The write changes neither the IDs nor the mark, and a marked flow stays in its entry.
module _ {t : Tracker} (i : Inv t) (p : Ptr) (s : FlowState)
    (same_local : s.local_id ≡ (t.cells p).local_id)
    (same_remote : s.remote_id ≡ (t.cells p).remote_id)
    (same_mark : s.in_qpn_map ≡ (t.cells p).in_qpn_map)
    (kept : s.in_qpn_map ≡ true
      → (settled s.state ≡ true)
        × (s.local_qpn ≡ (t.cells p).local_qpn)
        × (s.remote_qpn ≡ (t.cells p).remote_qpn)) where
  pub put-Inv : Inv (put t p s)
  put-Inv = record {
    local_ok = λ k q h. ground (arith, i.local_ok k q);
    remote_ok = λ k q h. ground (arith, i.remote_ok k q);
    flagged_ok = λ q h. ground (arith, i.flagged_ok q, kept);
    listed = λ k v h.
        let (q, f, e, l) = i.listed k v h in
        (q, ground (arith), ground (arith, kept), ground (arith, kept));
    distinct = λ q r f g e. ground (arith, i.distinct q r, kept);
  }

-- A flow in another state is not in the table.
pub unsettled-unmarked :
    {t : Tracker} (i : Inv t) (p : Ptr)
    → settled (t.cells p).state ≡ false
    → (t.cells p).in_qpn_map ≡ false
unsettled-unmarked i p h = ground (arith, i.flagged_ok p)

-- An unmarked flow may be given any state and any QP numbers.
pub put_unmarked-Inv :
    {t : Tracker} (i : Inv t) (p : Ptr) (s : FlowState)
    → (t.cells p).in_qpn_map ≡ false
    → s.local_id ≡ (t.cells p).local_id
    → s.remote_id ≡ (t.cells p).remote_id
    → s.in_qpn_map ≡ false
    → Inv (put t p s)
put_unmarked-Inv i p s mark l r m = put-Inv i p s l r (ground arith) (λ h. cc)
