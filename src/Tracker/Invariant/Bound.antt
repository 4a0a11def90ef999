-- ===== src/Tracker/Invariant/Bound.antt =====
-- `add_new_flow` keeps the invariant and binds both IDs to the flow it returns.
use libconntrack_cm.Base.{
  ℕ, ◌<◌, ◌≡◌, ◌≢◌, refl, Bool, true, false, Option, none, some, arith, Bool-cases, inl, inr, ◌==◌,
}
use libconntrack_cm.Store.{CmFlowKey, Ptr, Tracker, is_set, check}
use libconntrack_cm.Tracker.{bind_local, bind_remote, bind_flow, add_found, add_new_flow}
use libconntrack_cm.Tracker.Ensures
use libconntrack_cm.Tracker.Ensures.{Ensures, done, failed}
use libconntrack_cm.Tracker.Frame.{IsFrame, IsFrame-refl, IsFrame-trans}
use libconntrack_cm.Tracker.Invariant.{Inv}
use libconntrack_cm.Tracker.Invariant.Bind.{
  with_local, with_remote, with_cell, with_local-Inv, with_remote-Inv, with_cell-Inv,
}

-- The flow at `p` is found under the IDs, and `t` differs from `t₀` as a lookup may.
pub record IsBound (t₀ : Tracker) (k : ℕ) (key : CmFlowKey) (p : Ptr) (t : Tracker) : Type 0 where
  pub inv : Inv t
  pub frame : IsFrame t₀ t
  pub allocated : p < t.next
  pub by_local : k ≢ 0 → t.local_map k ≡ some p
  pub by_remote : is_set key ≡ true → t.remote_map key ≡ some p

with_local-IsFrame : (t : Tracker) (k : ℕ) (p : Ptr) → IsFrame t (with_local t k p)
with_local-IsFrame t k p = record {
  grows = omega arith;
  same = λ q h. ground arith;
  fresh = λ q h j. absurd (omega arith);
  table = λ j. refl;
}

with_remote-IsFrame : (t : Tracker) (k : CmFlowKey) (p : Ptr) → IsFrame t (with_remote t k p)
with_remote-IsFrame t k p = record {
  grows = omega arith;
  same = λ q h. ground arith;
  fresh = λ q h j. absurd (omega arith);
  table = λ j. refl;
}

with_cell-IsFrame : (t : Tracker) → IsFrame t (with_cell t)
with_cell-IsFrame t = record {
  grows = omega arith;
  same = λ q h. ground arith;
  fresh = λ q h j. ground arith;
  table = λ j. refl;
}

abbrev LocalPost : ℕ → Ptr → Tracker → Tracker → Type 0
LocalPost k p t u =
    Inv u
    × (p < u.next)
    × (is_set (u.cells p).remote_id ≡ is_set (t.cells p).remote_id)
    × ((u.cells p).in_qpn_map ≡ (t.cells p).in_qpn_map)
    × (u.remote_map ≡ t.remote_map)
    × IsFrame t u
    × (k ≢ 0 → u.local_map k ≡ some p)

bind_local-post :
    (k : ℕ) (found : Bool) (p : Ptr) (t : Tracker)
    → Inv t
    → p < t.next
    → (found ≡ true → k ≢ 0 → t.local_map k ≡ some p)
    → (found ≡ false → t.local_map k ≡ none)
    → Ensures (λ _ u. LocalPost k p t u) (bind_local k found p t)
unfolding bind_local check
bind_local-post k true p t i lt old new = done (i, lt, refl, refl, refl, IsFrame-refl t, old refl)
bind_local-post k false p t i lt old new = elim (Bool-cases (k == 0)) [
  | inl z ↦ rw z (done (i, lt, refl, refl, refl, IsFrame-refl t, ground arith))
  | inr nz ↦ elim (Bool-cases ((t.cells p).local_id == 0)) [
    | inl unset ↦
        rw (nz, unset)
          (done (
            with_local-Inv i k p (ground arith) lt (ground arith) (new refl),
            lt,
            ground arith,
            ground arith,
            refl,
            with_local-IsFrame t k p,
            ground arith,
          ))
    | inr set ↦ rw (nz, set) failed
  ]
]

bind_remote-post :
    (k : ℕ) (key : CmFlowKey) (found : Bool) (p : Ptr) (t : Tracker)
    → Inv t
    → p < t.next
    → (k ≢ 0 → t.local_map k ≡ some p)
    → (found ≡ true → t.remote_map key ≡ some p)
    → (found ≡ false → (t.remote_map key ≡ none) × ((t.cells p).in_qpn_map ≡ false))
    → Ensures (λ _ u. IsBound t k key p u) (bind_remote key found p t)
unfolding bind_remote check
bind_remote-post k key true p t i lt loc old new = done (record {
  inv = i;
  allocated = lt;
  frame = IsFrame-refl t;
  by_local = loc;
  by_remote = λ _. old refl;
})
bind_remote-post k key false p t i lt loc old new = elim (Bool-cases (is_set key)) [
  | inr unset ↦ rw unset (
      done (record {
        inv = i;
        allocated = lt;
        frame = IsFrame-refl t;
        by_local = loc;
        by_remote = λ h. cc;
      }))
  | inl is ↦ elim (Bool-cases (is_set (t.cells p).remote_id)) [
    | inr unset ↦
        rw (is, unset)
          (done (record {
            inv = with_remote-Inv i key p is lt unset (new refl).1 (new refl).0;
            allocated = lt;
            frame = with_remote-IsFrame t key p;
            by_local = loc;
            by_remote = λ h. ground arith;
          }))
    | inl set ↦ rw (is, set) failed
  ]
]

bind_flow-post :
    (k : ℕ) (key : CmFlowKey) (in_local in_remote : Bool) (p : Ptr) (t : Tracker)
    → Inv t
    → p < t.next
    → (in_local ≡ true → k ≢ 0 → t.local_map k ≡ some p)
    → (in_local ≡ false → t.local_map k ≡ none)
    → (in_remote ≡ true → t.remote_map key ≡ some p)
    → (in_remote ≡ false → (t.remote_map key ≡ none) × ((t.cells p).in_qpn_map ≡ false))
    → Ensures (IsBound t k key) (bind_flow k key in_local in_remote p t)
unfolding bind_flow
bind_flow-post k key in_local in_remote p t i lt l₁ l₀ r₁ r₀ =
    Ensures.bind (bind_local-post k in_local p t i lt l₁ l₀)
      λ _ u (iu, ltu, _, mark, same, fr, loc).
        Ensures.bind
          (bind_remote-post k key in_remote p u iu ltu loc (λ e. rw same (r₁ e))
            (λ e. (rw same (r₀ e).0, rw mark (r₀ e).1)))
          λ _ v b. done (record {
            inv = b.inv;
            allocated = b.allocated;
            frame = IsFrame-trans fr b.frame;
            by_local = b.by_local;
            by_remote = b.by_remote;
          })

module _ (k : ℕ) (key : CmFlowKey) where
  add_found-post :
      (l r : Option Ptr) (t : Tracker)
      → t.local_map k ≡ l
      → t.remote_map key ≡ r
      → Inv t
      → ((p : Ptr) → t.local_map k ≡ some p → (t.cells p).in_qpn_map ≡ false)
      → Ensures (IsBound t k key) (add_found k key l r t)
  unfolding add_found
  add_found-post (some p) (some q) t el er i unmarked = Ensures.bind_check _ _ _ λ same.
      Ensures.bind_check _ _ _ λ ids. done (record {
        inv = i;
        frame = IsFrame-refl t;
        allocated = (i.local_ok k p el).1;
        by_local = λ _. el;
        by_remote = λ _. ground arith;
      })
  add_found-post none none t el er i unmarked = Ensures.bind_check _ _ _ λ ids.
      Ensures.mono
        (bind_flow-post k key false false t.next (with_cell t) (with_cell-Inv i) (omega arith)
          (λ e. cc) (λ _. el) (λ e. cc) (λ _. (er, ground arith)))
        λ p u b. record {
          inv = b.inv;
          allocated = b.allocated;
          frame = IsFrame-trans (with_cell-IsFrame t) b.frame;
          by_local = b.by_local;
          by_remote = b.by_remote;
        }
  add_found-post (some p) none t el er i unmarked =
      bind_flow-post k key true false p t i (i.local_ok k p el).1 (λ _ _. el) (λ e. cc) (λ e. cc)
        (λ _. (er, unmarked p el))
  add_found-post none (some q) t el er i unmarked =
      bind_flow-post k key false true q t i (i.remote_ok key q er).1 (λ e. cc) (λ _. el) (λ _. er)
        (λ e. cc)

  -- A flow that the local ID already has may be given a remote key: it must not be in the table.
  pub add_new_flow-post :
      (t : Tracker)
      → Inv t
      → ((p : Ptr) → t.local_map k ≡ some p → (t.cells p).in_qpn_map ≡ false)
      → Ensures (IsBound t k key) (add_new_flow k key t)
  unfolding add_new_flow
  add_new_flow-post t i unmarked =
      add_found-post (t.local_map k) (t.remote_map key) t refl refl i unmarked
