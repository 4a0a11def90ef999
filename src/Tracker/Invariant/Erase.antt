-- ===== src/Tracker/Invariant/Erase.antt =====
-- `on_established`, `on_disconnected` and `erase_flow` keep the invariant.
use libconntrack_cm.Base.{
  ℕ, ◌≡◌, ◌≢◌, refl, true, false, Option, none, some, arith, update, update₂, Bool-cases, inl, inr,
  ◌==◌, pair_eq, is_some, ◌||◌,
}
use libconntrack_cm.Store.{CmFlowKey, Ptr, Tracker, get_flow_key}
use libconntrack_cm.Tracker.{
  on_established, on_disconnected, disconnect, erase_local, erase_remote, erase_flow,
}
use libconntrack_cm.Tracker.Ensures
use libconntrack_cm.Tracker.Ensures.{Ensures, done, failed}
use libconntrack_cm.Tracker.Edges.{IsKept}
use libconntrack_cm.Tracker.Invariant.{settled, IsFlagged, Inv}

IsKept-refl : {t : Tracker} → Inv t → IsKept t t
IsKept-refl i = record { inv = i; next = refl; states = λ p. refl }

-- The state after `p` is entered in the QPN table, and after it is taken out.
abbrev pub entered : Tracker → Ptr → Tracker
entered t p =
    let s = t.cells p in
    record t {
      qpn_map = update₂ t.qpn_map (get_flow_key s) (some s.local_qpn);
      cells = update t.cells p (record s { in_qpn_map = true });
    }

abbrev pub removed : Tracker → Ptr → Tracker
removed t p =
    let s = t.cells p in
    record t {
      qpn_map = update₂ t.qpn_map (get_flow_key s) none;
      cells = update t.cells p (record s { in_qpn_map = false });
    }

module _ {t : Tracker} (i : Inv t) where
  pub entered-Inv :
      (p : Ptr)
      → t.local_map (t.cells p).local_id ≡ some p
      → settled (t.cells p).state ≡ true
      → (t.cells p).local_qpn ≢ 0
      → (t.cells p).remote_qpn ≢ 0
      → t.qpn_map (get_flow_key (t.cells p)) ≡ none
      → Inv (entered t p)
  entered-Inv p found set lq rq free = record {
    local_ok = λ j q h. ground (arith, i.local_ok j q);
    remote_ok = λ j q h. ground (arith, i.remote_ok j q);
    flagged_ok = λ q h. ground (arith, i.flagged_ok q);
    listed = λ j v h. elim (Bool-cases (pair_eq (get_flow_key (t.cells p)) j)) [
      | inl e ↦ (p, ground arith, ground arith, ground arith)
      | inr e ↦
          let (q, f, k, l) = i.listed j v (ground arith) in
          (q, ground arith, ground arith, ground arith)
    ];
    distinct = λ q r f g e. ground (arith, i.distinct q r, i.flagged_ok q, i.flagged_ok r);
  }

  pub removed-Inv : (p : Ptr) → IsFlagged t p → Inv (removed t p)
  removed-Inv p f = record {
    local_ok = λ j q h. ground (arith, i.local_ok j q);
    remote_ok = λ j q h. ground (arith, i.remote_ok j q);
    flagged_ok = λ q h. ground (arith, i.flagged_ok q, i.distinct p q f);
    listed = λ j v h.
        let (q, g, k, l) = i.listed j v (ground arith) in
        (q, ground arith, ground arith, ground arith);
    distinct = λ q r f g e. ground (arith, i.distinct q r);
  }

  pub without_local-Inv :
      (k : ℕ)
      → ((p : Ptr) → t.local_map k ≡ some p → (t.cells p).in_qpn_map ≡ false)
      → Inv (record t { local_map = update t.local_map k none })
  without_local-Inv k unmarked = record {
    local_ok = λ j q h. ground (arith, i.local_ok j q);
    remote_ok = i.remote_ok;
    flagged_ok = λ q h. ground (arith, i.flagged_ok q h, unmarked q);
    listed = i.listed;
    distinct = i.distinct;
  }

  pub without_remote-Inv :
      (k : CmFlowKey) → Inv (record t { remote_map = update₂ t.remote_map k none })
  without_remote-Inv k = record {
    local_ok = i.local_ok;
    remote_ok = λ j q h. ground (arith, i.remote_ok j q);
    flagged_ok = λ q h. ground (arith, i.flagged_ok q h);
    listed = i.listed;
    distinct = i.distinct;
  }

pub on_established-post :
    (t : Tracker) (p : Ptr)
    → Inv t
    → t.local_map (t.cells p).local_id ≡ some p
    → settled (t.cells p).state ≡ true
    → Ensures (λ _ u. IsKept t u) (on_established p t)
unfolding on_established
on_established-post t p i found set =
    elim (Bool-cases (((t.cells p).local_qpn == 0) || ((t.cells p).remote_qpn == 0))) [
      | inl bad ↦ rw bad (done (IsKept-refl i))
      | inr good ↦ elim (Bool-cases (is_some (t.qpn_map (get_flow_key (t.cells p))))) [
        | inl taken ↦ rw (good, taken) (done (IsKept-refl i))
        | inr free ↦
            rw (good, free)
              (done (record {
                inv = entered-Inv i p found set (ground arith) (ground arith) (ground arith);
                next = refl;
                states = λ q. ground arith;
              }))
      ]
    ]

-- After `disconnect` the flow is not in the table, and the ID maps are as before.
record IsCut (t : Tracker) (p : Ptr) (u : Tracker) : Type 0 where
  kept : IsKept t u
  unmarked : (u.cells p).in_qpn_map ≡ false
  same_local : (k : ℕ) → u.local_map k ≡ t.local_map k

disconnect-post : (t : Tracker) (p : Ptr) → Inv t → Ensures (λ _ u. IsCut t p u) (disconnect p t)
unfolding disconnect on_disconnected
disconnect-post t p i = elim (Bool-cases (t.cells p).in_qpn_map) [
  | inr out ↦
      rw out (done (record { kept = IsKept-refl i; unmarked = out; same_local = λ k. refl }))
  | inl mark ↦
      let is = i.flagged_ok p mark in
      let good : (((t.cells p).local_qpn == 0) || ((t.cells p).remote_qpn == 0)) ≡ false =
        ground (arith, is.local_qpn, is.remote_qpn) in
      rw (mark, good, is.entry)
        (done (record {
          kept = record { inv = removed-Inv i p mark; next = refl; states = λ q. ground arith };
          unmarked = ground arith;
          same_local = λ k. refl;
        }))
]

erase_local-post :
    (t : Tracker) (k : ℕ) (key : CmFlowKey) (r : Option Ptr)
    → t.local_map k ≡ r
    → Inv t
    → Ensures (λ _ u. IsKept t u) (erase_local k key r t)
unfolding erase_local
erase_local-post t k key none e i = done (IsKept-refl i)
erase_local-post t k key (some p) e i = Ensures.bind (disconnect-post t p i) λ _ u c. done (record {
  inv =
      without_remote-Inv (without_local-Inv c.kept.inv k λ q h. ground (arith, c.same_local k)) key;
  next = c.kept.next;
  states = c.kept.states;
})

erase_remote-post :
    (t : Tracker) (k : ℕ) (key : CmFlowKey) (r : Option Ptr)
    → k ≡ 0
    → Inv t
    → Ensures (λ _ u. IsKept t u) (erase_remote k key r t)
unfolding erase_remote
erase_remote-post t k key none z i = done (IsKept-refl i)
erase_remote-post t k key (some p) z i = Ensures.bind (disconnect-post t p i) λ _ u c.
    done (record {
      inv =
          without_local-Inv (without_remote-Inv c.kept.inv key) k
            λ q h. ground (arith, c.kept.inv.local_ok k q);
      next = c.kept.next;
      states = c.kept.states;
    })

pub erase_flow-post :
    (k : ℕ) (key : CmFlowKey) (t : Tracker)
    → Inv t
    → Ensures (λ _ u. IsKept t u) (erase_flow k key t)
unfolding erase_flow
erase_flow-post k key t i = Ensures.bind_check _ _ _ λ ids. elim (Bool-cases (k == 0)) [
  | inl z ↦ rw z (erase_remote-post t k key (t.remote_map key) (ground arith) i)
  | inr nz ↦ rw nz (erase_local-post t k key (t.local_map k) refl i)
]
