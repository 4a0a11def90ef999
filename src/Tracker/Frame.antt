-- ===== src/Tracker/Frame.antt =====
-- What a lookup may change: it may allocate a flow, in the state `idle`, and give a flow its IDs.
use libconntrack_cm.Base.{◌≤◌, ◌<◌, ◌≡◌, refl, arith}
use libconntrack_cm.Store.{CmState, FlowKey, FlowState, Ptr, Tracker}

-- Two contents of a flow object that differ at most in the IDs.
pub record SameFlow (a b : FlowState) : Type 0 where
  pub state : b.state ≡ a.state
  pub local_qpn : b.local_qpn ≡ a.local_qpn
  pub remote_qpn : b.remote_qpn ≡ a.remote_qpn
  pub mark : b.in_qpn_map ≡ a.in_qpn_map

pub record IsFrame (t u : Tracker) : Type 0 where
  pub grows : t.next ≤ u.next
  pub same : (p : Ptr) → p < t.next → SameFlow (t.cells p) (u.cells p)
  pub fresh : (p : Ptr) → t.next ≤ p → p < u.next → (u.cells p).state ≡ CmState.idle
  pub table : (k : FlowKey) → u.qpn_map k ≡ t.qpn_map k

pub IsFrame-refl : (t : Tracker) → IsFrame t t
IsFrame-refl t = record {
  grows = omega arith;
  same = λ p h. record { state = refl; local_qpn = refl; remote_qpn = refl; mark = refl };
  fresh = λ p h k. absurd (omega arith);
  table = λ k. refl;
}

pub IsFrame-trans : {t u v : Tracker} → IsFrame t u → IsFrame u v → IsFrame t v
IsFrame-trans {t} {u} {v} f g = record {
  grows = omega (arith, f.grows, g.grows);
  same = λ p h. ground (arith, f.same p, g.same p, f.grows);
  fresh = λ p h k. ground (arith, f.fresh p, g.fresh p, g.same p);
  table = λ k. ground (arith, f.table k, g.table k);
}
