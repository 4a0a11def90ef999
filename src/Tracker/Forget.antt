-- ===== src/Tracker/Forget.antt =====
-- What `erase_flow` takes out of the ID maps: the entries of the two IDs that it is given, whichever flows they lead
-- to, and no other.
use libconntrack_cm.Base.{
  ℕ, ◌≡◌, ◌≢◌, ◌∙◌, refl, false, none, some, ◌==◌, pair_eq, arith, Bool-cases, inl, inr, ◌||◌,
  is_some, update, update₂,
}
use libconntrack_cm.Store.{CmFlowKey, Ptr, Tracker, get_flow_key}
use libconntrack_cm.Tracker.{disconnect, on_disconnected, erase_local, erase_flow}
use libconntrack_cm.Packet.{ok}
use libconntrack_cm.Tracker.Ensures
use libconntrack_cm.Tracker.Ensures.{Ensures, done, result}

-- The ID maps are as before, and so are the IDs of the flows.
record SameIds (t u : Tracker) : Type 0 where
  local_map : u.local_map ≡ t.local_map
  remote_map : u.remote_map ≡ t.remote_map
  ids : (p : Ptr) → (u.cells p).remote_id ≡ (t.cells p).remote_id

disconnect-SameIds : (p : Ptr) (t : Tracker) → Ensures (λ _ u. SameIds t u) (disconnect p t)
unfolding disconnect on_disconnected
disconnect-SameIds p t = elim (Bool-cases (t.cells p).in_qpn_map) [
  | inr out ↦ rw out (done (record { local_map = refl; remote_map = refl; ids = λ q. refl }))
  | inl mark ↦ elim (Bool-cases (((t.cells p).local_qpn == 0) || ((t.cells p).remote_qpn == 0))) [
    | inl bad ↦
        rw (mark, bad) (done (record { local_map = refl; remote_map = refl; ids = λ q. refl }))
    | inr good ↦ elim (Bool-cases (is_some (t.qpn_map (get_flow_key (t.cells p))))) [
      | inr absent ↦
          rw (mark, good, absent)
            (done (record { local_map = refl; remote_map = refl; ids = λ q. refl }))
      | inl here ↦
          rw (mark, good, here)
            (done (record { local_map = refl; remote_map = refl; ids = λ q. ground arith }))
    ]
  ]
]

-- The maps without the entries of the two IDs, and the flows' own IDs as before.
record Forgets (k : ℕ) (key : CmFlowKey) (t u : Tracker) : Type 0 where
  local_map : (j : ℕ) → u.local_map j ≡ update t.local_map k none j
  remote_map : (j : CmFlowKey) → u.remote_map j ≡ update₂ t.remote_map key none j
  ids : (p : Ptr) → (u.cells p).remote_id ≡ (t.cells p).remote_id

erase_flow-Forgets :
    (k : ℕ) (key : CmFlowKey) (p : Ptr) (t : Tracker)
    → k ≢ 0
    → t.local_map k ≡ some p
    → Ensures (λ _ u. Forgets k key t u) (erase_flow k key t)
unfolding erase_flow erase_local
erase_flow-Forgets k key p t ne found = Ensures.bind_check _ _ _ λ ids.
    let nz : (k == 0) ≡ false = ground arith in
    rw (nz, found)
      (Ensures.bind (disconnect-SameIds p t) λ _ u s. done (record {
        local_map = λ j. rw s.local_map refl;
        remote_map = λ j. rw s.remote_map refl;
        ids = s.ids;
      }))

-- A flow `p` that is found by its local ID `k` and by its own remote key is erased under `k` and another remote key,
-- under which flow `q` is found. Then `k` is free, flow `q` is no longer found under the other key, and flow `p` is
-- still found under its own.
pub erase_flow-strands :
    (k : ℕ) (key : CmFlowKey) (p q : Ptr) (t : Tracker) {u : Tracker}
    → k ≢ 0
    → t.local_map k ≡ some p
    → t.remote_map (t.cells p).remote_id ≡ some p
    → t.remote_map key ≡ some q
    → pair_eq key (t.cells p).remote_id ≡ false
    → erase_flow k key t ≡ ok (tt, u)
    → (u.local_map k ≡ none)
      × (u.remote_map key ≡ none)
      × (u.remote_map (u.cells p).remote_id ≡ some p)
erase_flow-strands k key p q t ne found own other apart run =
    let f = result (erase_flow-Forgets k key p t ne found) run in
    (
      f.local_map k ∙ ground arith,
      f.remote_map key ∙ ground arith,
      rw (f.ids p, f.remote_map (t.cells p).remote_id, apart) own,
    )
