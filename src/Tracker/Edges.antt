-- ===== src/Tracker/Edges.antt =====
-- The protocol's state machine, read off the `switch` statements of the handlers: the changes of state
-- that one message can cause. A tracker makes a step when it keeps its invariant and each of its flows
-- moves along an edge; a new flow starts in `idle`.
use libconntrack_cm.Base.{
  ℕ, ◌≤◌, ◌<◌, ◌≡◌, refl, Bool, true, false, arith, sym, subst, inl, inr, update, ◌==◌, Bool-cases,
}
use libconntrack_cm.Store.{CmState, Ptr, Tracker}
use libconntrack_cm.Tracker.Frame.{IsFrame}
use libconntrack_cm.Tracker.Invariant.{Inv}

-- The states that a message can lead to from the first one.
abbrev pub edge : CmState → CmState → Bool
edge CmState.idle CmState.idle = true
edge CmState.idle CmState.req_sent = true
edge CmState.idle CmState.req_rcvd = true
edge CmState.idle CmState.dreq_sent = true
edge CmState.req_sent CmState.req_sent = true
edge CmState.req_sent CmState.rep_rcvd = true
edge CmState.req_rcvd CmState.req_rcvd = true
edge CmState.req_rcvd CmState.rep_sent = true
edge CmState.mra_req_rcvd CmState.mra_req_rcvd = true
edge CmState.mra_req_rcvd CmState.rep_rcvd = true
edge CmState.mra_req_sent CmState.mra_req_sent = true
edge CmState.mra_req_sent CmState.rep_sent = true
edge CmState.mra_rep_sent CmState.mra_rep_sent = true
edge CmState.mra_rep_sent CmState.established = true
edge CmState.mra_rep_rcvd CmState.mra_rep_rcvd = true
edge CmState.mra_rep_rcvd CmState.established = true
edge CmState.mra_rep_rcvd CmState.dreq_rcvd = true
edge CmState.rep_sent CmState.rep_sent = true
edge CmState.rep_sent CmState.established = true
edge CmState.rep_sent CmState.dreq_rcvd = true
edge CmState.rep_rcvd CmState.rep_rcvd = true
edge CmState.rep_rcvd CmState.established = true
edge CmState.established CmState.established = true
edge CmState.established CmState.dreq_sent = true
edge CmState.established CmState.dreq_rcvd = true
edge CmState.dreq_sent CmState.dreq_sent = true
edge CmState.dreq_sent CmState.dreq_rcvd = true
edge CmState.dreq_rcvd CmState.dreq_rcvd = true
edge CmState.dreq_rcvd CmState.dreq_sent = true
edge CmState.timewait CmState.timewait = true
edge CmState.timewait CmState.dreq_rcvd = true
edge _ _ = false

pub edge_refl : (c : CmState) → edge c c ≡ true
edge_refl CmState.idle = refl
edge_refl _ = refl

abbrev pub state_of : Tracker → Ptr → CmState
state_of t p = (t.cells p).state

pub record IsStep (t u : Tracker) : Type 0 where
  pub inv : Inv u
  pub grows : t.next ≤ u.next
  pub old : (p : Ptr) → p < t.next → edge (state_of t p) (state_of u p) ≡ true
  pub new : (p : Ptr) → t.next ≤ p → p < u.next → edge CmState.idle (state_of u p) ≡ true

pub IsStep-refl : {t : Tracker} → Inv t → IsStep t t
IsStep-refl {t} i = record {
  inv = i;
  grows = omega arith;
  old = λ p h. edge_refl (state_of t p);
  new = λ p h k. absurd (omega arith);
}

-- A step after a lookup.
pub IsStep-frame : {t u v : Tracker} → IsFrame t u → IsStep u v → IsStep t v
IsStep-frame {t} {u} {v} f s = record {
  inv = s.inv;
  grows = omega (arith, f.grows, s.grows);
  old = λ p h. rw (← (f.same p h).state) (s.old p (omega (arith, f.grows)));
  new = λ p h k. elim (Bool-cases (libconntrack_cm.Base.ltb p u.next)) [
    | inl lt ↦
        let lt' : p < u.next = ground arith in
        subst (λ c. edge c (state_of v p) ≡ true) (f.fresh p h lt') (s.old p lt')
    | inr ge ↦ s.new p (ground arith) k
  ];
}

-- The states of all flows are as before.
pub record IsKept (t u : Tracker) : Type 0 where
  pub inv : Inv u
  pub next : u.next ≡ t.next
  pub states : (p : Ptr) → state_of u p ≡ state_of t p

pub IsStep-IsKept : {t u v : Tracker} → IsStep t u → IsKept u v → IsStep t v
IsStep-IsKept s k = record {
  inv = k.inv;
  grows = omega (arith, s.grows, k.next);
  old = λ p h. rw (k.states p) (s.old p h);
  new = λ p h j. rw (k.states p) (s.new p h (omega (arith, k.next)));
}
