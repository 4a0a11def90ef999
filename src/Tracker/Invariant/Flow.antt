-- ===== src/Tracker/Invariant/Flow.antt =====
-- `add_new_flow` and `get_flow` keep the invariant, and the flow that they return is found under the
-- IDs that they were given.
use libconntrack_cm.Base.{ℕ, ◌<◌, ◌≡◌, ◌≢◌, some, arith, Bool-cases, inl, inr, ◌==◌, Option-cases}
use libconntrack_cm.Store.{CmFlowKey, Ptr, Tracker}
use libconntrack_cm.Tracker.{or_add, get_flow}
use libconntrack_cm.Tracker.Ensures
use libconntrack_cm.Tracker.Ensures.{Ensures, done, failed}
use libconntrack_cm.Tracker.Frame.{IsFrame, IsFrame-refl}
use libconntrack_cm.Tracker.Invariant.{Inv}
use libconntrack_cm.Tracker.Invariant.Bound.{add_new_flow-post}

-- The flow that `get_flow` returns: by the local ID if there is one, else by the remote key.
pub record IsFlow (t₀ : Tracker) (k : ℕ) (key : CmFlowKey) (p : Ptr) (t : Tracker) : Type 0 where
  pub inv : Inv t
  pub frame : IsFrame t₀ t
  pub allocated : p < t.next
  pub by_local : k ≢ 0 → t.local_map k ≡ some p
  pub by_remote : k ≡ 0 → t.remote_map key ≡ some p

pub get_flow-post :
    (k : ℕ) (key : CmFlowKey) (t : Tracker) → Inv t → Ensures (IsFlow t k key) (get_flow k key t)
unfolding get_flow or_add
get_flow-post k key t i = Ensures.bind_check _ _ _ λ ids. elim (Bool-cases (k == 0)) [
  | inl z ↦ rw z (elim (Option-cases (t.remote_map key)) [
    | inl e ↦ rw e (
        Ensures.mono (add_new_flow-post k key t i (λ p h. ground (arith, i.local_ok k p h)))
          λ p u b. record {
            inv = b.inv;
            frame = b.frame;
            allocated = b.allocated;
            by_local = b.by_local;
            by_remote = λ h. b.by_remote (ground arith);
          })
    | inr (p, e) ↦ rw e (
        done (record {
          inv = i;
          frame = IsFrame-refl t;
          allocated = (i.remote_ok key p e).1;
          by_local = λ h. ground arith;
          by_remote = λ h. e;
        }))
  ])
  | inr nz ↦ rw nz (elim (Option-cases (t.local_map k)) [
    | inl e ↦ rw e (
        Ensures.mono (add_new_flow-post k key t i (λ p h. cc)) λ p u b. record {
          inv = b.inv;
          frame = b.frame;
          allocated = b.allocated;
          by_local = b.by_local;
          by_remote = λ h. ground arith;
        })
    | inr (p, e) ↦ rw e (
        done (record {
          inv = i;
          frame = IsFrame-refl t;
          allocated = (i.local_ok k p e).1;
          by_local = λ _. e;
          by_remote = λ h. ground arith;
        }))
  ])
]
