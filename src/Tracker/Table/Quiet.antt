-- ===== src/Tracker/Table/Quiet.antt =====
-- A lookup does not touch the QPN table, and allocates at most one flow; it allocates none when one of the IDs is
-- known.
use libconntrack_cm.Base.{
  ℕ, ◌≡◌, ◌⊎◌, inl, inr, refl, Bool, true, false, Option, none, some, arith, Bool-cases, ◌==◌, not,
  ◌&&◌, is_some,
}
use libconntrack_cm.Store.{CmFlowKey, Ptr, Tracker, is_set}
use libconntrack_cm.Tracker.{
  bind_local, bind_remote, bind_flow, add_found, add_new_flow, or_add, get_flow,
}
use libconntrack_cm.Tracker.Ensures
use libconntrack_cm.Tracker.Ensures.{Ensures, done, failed}
use libconntrack_cm.Tracker.Table.{IsQuiet, IsSilent}

IsSilent-refl : (t : Tracker) → IsSilent t t
IsSilent-refl t = record { table = refl; next = refl }

bind_local-IsSilent :
    (k : ℕ) (found : Bool) (p : Ptr) (t : Tracker)
    → Ensures (λ _ u. IsSilent t u) (bind_local k found p t)
unfolding bind_local
bind_local-IsSilent k found p t = elim (Bool-cases (not found && not (k == 0))) [
  | inr skips ↦ rw skips (done (IsSilent-refl t))
  | inl binds ↦
      rw binds (Ensures.bind_check _ _ _ λ unset. done (record { table = refl; next = refl }))
]

bind_remote-IsSilent :
    (key : CmFlowKey) (found : Bool) (p : Ptr) (t : Tracker)
    → Ensures (λ _ u. IsSilent t u) (bind_remote key found p t)
unfolding bind_remote
bind_remote-IsSilent key found p t = elim (Bool-cases (not found && is_set key)) [
  | inr skips ↦ rw skips (done (IsSilent-refl t))
  | inl binds ↦
      rw binds (Ensures.bind_check _ _ _ λ unset. done (record { table = refl; next = refl }))
]

bind_flow-IsSilent :
    (k : ℕ) (key : CmFlowKey) (in_local in_remote : Bool) (p : Ptr) (t : Tracker)
    → Ensures (λ _ u. IsSilent t u) (bind_flow k key in_local in_remote p t)
unfolding bind_flow
bind_flow-IsSilent k key in_local in_remote p t =
    Ensures.bind (bind_local-IsSilent k in_local p t) λ _ u s.
      Ensures.bind (bind_remote-IsSilent key in_remote p u) λ _ v r.
        done (record { table = rw (r.table, s.table) refl; next = rw (r.next, s.next) refl })

add_found-IsQuiet :
    (k : ℕ) (key : CmFlowKey) (l r : Option Ptr) (t : Tracker)
    → Ensures (λ _ u. IsQuiet t u) (add_found k key l r t)
unfolding add_found
add_found-IsQuiet k key (some p) (some q) t =
    Ensures.bind_check _ _ _
      λ same. Ensures.bind_check _ _ _ λ ids. done (record { table = refl; bounded = omega arith })
add_found-IsQuiet k key none none t = Ensures.bind_check _ _ _ λ ids.
    Ensures.mono (bind_flow-IsSilent k key false false t.next _)
      λ _ u s. record { table = s.table; bounded = omega (arith, s.next) }
add_found-IsQuiet k key (some p) none t =
    Ensures.mono (bind_flow-IsSilent k key true false p t)
      λ _ u s. record { table = s.table; bounded = omega (arith, s.next) }
add_found-IsQuiet k key none (some q) t =
    Ensures.mono (bind_flow-IsSilent k key false true q t)
      λ _ u s. record { table = s.table; bounded = omega (arith, s.next) }

add_new_flow-IsQuiet :
    (k : ℕ) (key : CmFlowKey) (t : Tracker) → Ensures (λ _ u. IsQuiet t u) (add_new_flow k key t)
unfolding add_new_flow
add_new_flow-IsQuiet k key t = add_found-IsQuiet k key (t.local_map k) (t.remote_map key) t

or_add-IsQuiet :
    (k : ℕ) (key : CmFlowKey) (found : Option Ptr) (t : Tracker)
    → Ensures (λ _ u. IsQuiet t u) (or_add k key found t)
unfolding or_add
or_add-IsQuiet k key (some p) t = done (record { table = refl; bounded = omega arith })
or_add-IsQuiet k key none t = add_new_flow-IsQuiet k key t

pub get_flow-IsQuiet :
    (k : ℕ) (key : CmFlowKey) (t : Tracker) → Ensures (λ _ u. IsQuiet t u) (get_flow k key t)
unfolding get_flow
get_flow-IsQuiet k key t = Ensures.bind_check _ _ _ λ ids. elim (Bool-cases (k == 0)) [
  | inl z ↦ rw z (or_add-IsQuiet k key (t.remote_map key) t)
  | inr nz ↦ rw nz (or_add-IsQuiet k key (t.local_map k) t)
]

-- With an ID that is known, nothing is allocated.
add_found-IsSilent :
    (k : ℕ) (key : CmFlowKey) (l r : Option Ptr) (t : Tracker)
    → (is_some l ≡ true) ⊎ (is_some r ≡ true)
    → Ensures (λ _ u. IsSilent t u) (add_found k key l r t)
unfolding add_found
add_found-IsSilent k key (some p) (some q) t known =
    Ensures.bind_check _ _ _ λ same. Ensures.bind_check _ _ _ λ ids. done (IsSilent-refl t)
add_found-IsSilent k key none none t (inl e) = cc
add_found-IsSilent k key none none t (inr e) = cc
add_found-IsSilent k key (some p) none t known = bind_flow-IsSilent k key true false p t
add_found-IsSilent k key none (some q) t known = bind_flow-IsSilent k key false true q t

pub add_new_flow-IsSilent :
    (k : ℕ) (key : CmFlowKey) (t : Tracker)
    → (is_some (t.local_map k) ≡ true) ⊎ (is_some (t.remote_map key) ≡ true)
    → Ensures (λ _ u. IsSilent t u) (add_new_flow k key t)
unfolding add_new_flow
add_new_flow-IsSilent k key t known =
    add_found-IsSilent k key (t.local_map k) (t.remote_map key) t known
