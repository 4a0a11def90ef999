-- ===== src/Tracker/Lookup.antt =====
-- What a lookup by `get_flow` or `add_new_flow` leaves as it was: the entries of the ID maps, every flow but
-- the one that it returns, the states, and the QPN table.
use libconntrack_cm.Base.{
  ℕ, ◌≤◌, ◌<◌, ◌≡◌, ◌≢◌, refl, Bool, true, false, Option, none, some, arith, Bool-cases, inl, inr,
  ◌==◌, ◌∙◌,
}
use libconntrack_cm.Store.{CmFlowKey, Ptr, Tracker, is_set}
use libconntrack_cm.Tracker.{
  bind_local, bind_remote, bind_flow, add_found, add_new_flow, or_add, get_flow,
}
use libconntrack_cm.Tracker.Ensures
use libconntrack_cm.Tracker.Ensures.{Ensures, done}
use libconntrack_cm.Tracker.Edges.{state_of}
use libconntrack_cm.Tracker.Invariant.Bind.{with_cell}

-- `u` is `t` after a lookup that returned `p`.
pub record IsLookup (t : Tracker) (p : Ptr) (u : Tracker) : Type 0 where
  pub grows : t.next ≤ u.next
  pub local_kept : (j q : ℕ) → t.local_map j ≡ some q → u.local_map j ≡ some q
  pub remote_kept : (j : CmFlowKey) (q : Ptr) → t.remote_map j ≡ some q → u.remote_map j ≡ some q
  pub others : (q : Ptr) → q < t.next → q ≢ p → u.cells q ≡ t.cells q
  pub states : (q : Ptr) → q < t.next → state_of u q ≡ state_of t q
  pub table : u.qpn_map ≡ t.qpn_map

pub IsLookup-refl : (t : Tracker) (p : Ptr) → IsLookup t p t
IsLookup-refl t p = record {
  grows = omega arith;
  local_kept = λ j q h. h;
  remote_kept = λ j q h. h;
  others = λ q h n. refl;
  states = λ q h. refl;
  table = refl;
}

IsLookup-trans : {t u v : Tracker} {p : Ptr} → IsLookup t p u → IsLookup u p v → IsLookup t p v
IsLookup-trans a b = record {
  grows = omega (arith, a.grows, b.grows);
  local_kept = λ j q h. b.local_kept j q (a.local_kept j q h);
  remote_kept = λ j q h. b.remote_kept j q (a.remote_kept j q h);
  others = λ q h n. b.others q (omega (arith, a.grows)) n ∙ a.others q h n;
  states = λ q h. b.states q (omega (arith, a.grows)) ∙ a.states q h;
  table = b.table ∙ a.table;
}

module _ (k : ℕ) (key : CmFlowKey) where
  bind_local-IsLookup :
      (found : Bool) (p : Ptr) (t : Tracker)
      → (found ≡ false → t.local_map k ≡ none)
      → Ensures (λ _ u. IsLookup t p u × (u.remote_map ≡ t.remote_map)) (bind_local k found p t)
  unfolding bind_local
  bind_local-IsLookup true p t free = done (IsLookup-refl t p, refl)
  bind_local-IsLookup false p t free = elim (Bool-cases (k == 0)) [
    | inl z ↦ rw z (done (IsLookup-refl t p, refl))
    | inr nz ↦ rw nz (
        Ensures.bind_check _ _ _ λ unset. done (
          record {
            grows = omega arith;
            local_kept = λ j q h. ground (arith, free refl);
            remote_kept = λ j q h. h;
            others = λ q h n. ground arith;
            states = λ q h. ground arith;
            table = refl;
          },
          refl,
        ))
  ]

  bind_remote-IsLookup :
      (found : Bool) (p : Ptr) (t : Tracker)
      → (found ≡ false → t.remote_map key ≡ none)
      → Ensures (λ _ u. IsLookup t p u) (bind_remote key found p t)
  unfolding bind_remote
  bind_remote-IsLookup true p t free = done (IsLookup-refl t p)
  bind_remote-IsLookup false p t free = elim (Bool-cases (is_set key)) [
    | inr unset ↦ rw unset (done (IsLookup-refl t p))
    | inl set ↦ rw set (
        Ensures.bind_check _ _ _ λ unset. done (record {
          grows = omega arith;
          local_kept = λ j q h. h;
          remote_kept = λ j q h. ground (arith, free refl);
          others = λ q h n. ground arith;
          states = λ q h. ground arith;
          table = refl;
        }))
  ]

  bind_flow-IsLookup :
      (in_local in_remote : Bool) (p : Ptr) (t : Tracker)
      → (in_local ≡ false → t.local_map k ≡ none)
      → (in_remote ≡ false → t.remote_map key ≡ none)
      → Ensures (λ q u. (q ≡ p) × IsLookup t p u) (bind_flow k key in_local in_remote p t)
  unfolding bind_flow
  bind_flow-IsLookup in_local in_remote p t l r =
      Ensures.bind (bind_local-IsLookup in_local p t l) λ _ u (a, same).
        Ensures.bind (bind_remote-IsLookup in_remote p u λ e. rw same (r e))
          λ _ v b. done (refl, IsLookup-trans a b)

  alloc-IsLookup : (t : Tracker) → IsLookup t t.next (with_cell t)
  alloc-IsLookup t = record {
    grows = omega arith;
    local_kept = λ j q h. h;
    remote_kept = λ j q h. h;
    others = λ q h n. ground arith;
    states = λ q h. ground arith;
    table = refl;
  }

  add_found-IsLookup :
      (l r : Option Ptr) (t : Tracker)
      → t.local_map k ≡ l
      → t.remote_map key ≡ r
      → Ensures (λ p u. IsLookup t p u) (add_found k key l r t)
  unfolding add_found
  add_found-IsLookup (some p) (some q) t el er =
      Ensures.bind_check _ _ _ λ same. Ensures.bind_check _ _ _ λ ids. done (IsLookup-refl t p)
  add_found-IsLookup none none t el er = Ensures.bind_check _ _ _ λ ids.
      Ensures.mono (bind_flow-IsLookup false false t.next (with_cell t) (λ _. el) (λ _. er))
        λ q u (same, a). rw same (IsLookup-trans (alloc-IsLookup t) a)
  add_found-IsLookup (some p) none t el er =
      Ensures.mono (bind_flow-IsLookup true false p t (λ e. cc) (λ _. er))
        λ q u (same, a). rw same a
  add_found-IsLookup none (some p) t el er =
      Ensures.mono (bind_flow-IsLookup false true p t (λ _. el) (λ e. cc))
        λ q u (same, a). rw same a

  pub add_new_flow-IsLookup : (t : Tracker) → Ensures (λ p u. IsLookup t p u) (add_new_flow k key t)
  unfolding add_new_flow
  add_new_flow-IsLookup t = add_found-IsLookup (t.local_map k) (t.remote_map key) t refl refl

  or_add-IsLookup :
      (found : Option Ptr) (t : Tracker) → Ensures (λ p u. IsLookup t p u) (or_add k key found t)
  unfolding or_add
  or_add-IsLookup none t = add_new_flow-IsLookup t
  or_add-IsLookup (some p) t = done (IsLookup-refl t p)

  pub get_flow-IsLookup : (t : Tracker) → Ensures (λ p u. IsLookup t p u) (get_flow k key t)
  unfolding get_flow
  get_flow-IsLookup t = Ensures.bind_check _ _ _ λ ids. elim (Bool-cases (k == 0)) [
    | inl z ↦ rw z (or_add-IsLookup (t.remote_map key) t)
    | inr nz ↦ rw nz (or_add-IsLookup (t.local_map k) t)
  ]
