-- ===== src/Tracker/Total/Lookup.antt =====
-- What follows a lookup by `get_flow`: on the flow that the IDs name, and on a flow that they did not name before.
use libconntrack_cm.Base.{
  ℕ, ◌≡◌, ◌≢◌, refl, sym, ap, Bool, true, false, ◌&&◌, Option, none, some, arith, Bool-cases, inl,
  inr, ◌==◌, ◌∙◌, ◌⊎◌, Option-cases,
}
use libconntrack_cm.Store.{CmState, CmFlowKey, Ptr, Tracker, M, and_then, is_set, check}
use libconntrack_cm.Tracker.{add_found, add_new_flow, or_add, get_flow}
use libconntrack_cm.Tracker.Ensures
use libconntrack_cm.Tracker.Ensures.{Ensures, done, failed}
use libconntrack_cm.Tracker.Invariant.{Inv}
use libconntrack_cm.Tracker.Isolate.{local_zero, bind_flow-returns}
use libconntrack_cm.Tracker.Repeat.{Found, get_flow-Found}
use libconntrack_cm.Tracker.Edges.{state_of}
use libconntrack_cm.Tracker.Invariant.Bind.{with_cell}
use libconntrack_cm.Tracker.Invariant.Bound.{add_new_flow-post}
use libconntrack_cm.Packet.{is_ok}
use libconntrack_cm.Tracker.Total.{can_find, get_flow-is_ok, is_ok-bind, known, usable}

-- The flow that a lookup returns when the IDs named none: a new one, or the one with the remote key.
pub record IsNew (k : ℕ) (key : CmFlowKey) (p : Ptr) (t : Tracker) : Type 0 where
  pub found : Found k key p t
  pub inv : Inv t
  pub fresh : (state_of t p ≡ CmState.idle) ⊎ ((k ≢ 0) × (t.remote_map key ≡ some p))

get_flow-unknown :
    (k : ℕ) (key : CmFlowKey) (t : Tracker)
    → known k key t ≡ none
    → usable k key ≡ true
    → get_flow k key t ≡ add_new_flow k key t
unfolding get_flow or_add check
get_flow-unknown k key t e u = elim (Bool-cases (k == 0)) [
  | inl z ↦ let at : t.remote_map key ≡ none = ground (arith, e, z) in rw (u, z, at) refl
  | inr nz ↦ let at : t.local_map k ≡ none = ground (arith, e, nz) in rw (nz, at) refl
]

known-local :
    (k : ℕ) (key : CmFlowKey) (t : Tracker) → Inv t → known k key t ≡ none → t.local_map k ≡ none
known-local k key t i e = elim (Bool-cases (k == 0)) [
  | inl z ↦ let zero : k ≡ 0 = ground arith in rw zero (local_zero i)
  | inr nz ↦ ground (arith, e, nz)
]

add_fresh-returns :
    (k : ℕ) (key : CmFlowKey) (t : Tracker)
    → t.local_map k ≡ none
    → t.remote_map key ≡ none
    → Ensures (λ p _. p ≡ t.next) (add_new_flow k key t)
unfolding add_new_flow add_found
add_fresh-returns k key t l r =
    rw (l, r)
      (Ensures.bind_check _ _ _ λ ids. bind_flow-returns k key false false t.next (with_cell t))

add_new_flow-IsNew :
    (k : ℕ) (key : CmFlowKey) (t : Tracker)
    → Inv t
    → known k key t ≡ none
    → usable k key ≡ true
    → Ensures (IsNew k key) (add_new_flow k key t)
add_new_flow-IsNew k key t i e u =
    let l = known-local k key t i e in
    let post = add_new_flow-post k key t i λ p h. ground (arith, l, h) in
    let keys : k ≡ 0 → is_set key ≡ true = λ z. ground (arith, u, z) in
    elim (Option-cases (t.remote_map key)) [
      | inl none_remote ↦
          Ensures.mono (Ensures.both post (add_fresh-returns k key t l none_remote))
            λ p v (b, same). record {
              found = record {
                by_local = b.by_local;
                by_remote = λ z. b.by_remote (keys z);
                usable = keys;
              };
              inv = b.inv;
              fresh = inl (b.frame.fresh p (omega (arith, same)) b.allocated);
            }
      | inr (q, at) ↦ Ensures.mono post λ p v b. record {
        found = record {
          by_local = b.by_local;
          by_remote = λ z. b.by_remote (keys z);
          usable = keys;
        };
        inv = b.inv;
        fresh = inr (λ z. ground (arith, e, at, z), b.by_remote (i.remote_ok key q at).0);
      }
    ]

get_flow-IsNew :
    (k : ℕ) (key : CmFlowKey) (t : Tracker)
    → Inv t
    → known k key t ≡ none
    → Ensures (IsNew k key) (get_flow k key t)
unfolding get_flow
get_flow-IsNew k key t i e = elim (Bool-cases (usable k key)) [
  | inl u ↦ rw (get_flow-unknown k key t e u) (add_new_flow-IsNew k key t i e u)
  | inr u ↦ Ensures.bind_check _ _ _ λ ids. absurd (ground (arith, u, ids))
]

-- What follows a lookup returns if it does for the flow that the IDs name.
abbrev pub on_known : (Ptr → Bool) → Option Ptr → Bool
on_known accepts none = true
on_known accepts (some p) = accepts p

-- A lookup by the two IDs returns, and so does what follows it on the flow that they name.
abbrev pub returns : ℕ → CmFlowKey → (Ptr → Bool) → Tracker → Bool
returns k key accepts t = can_find k key t && on_known accepts (known k key t)

known-Found :
    (k : ℕ) (key : CmFlowKey) (p : Ptr) (t : Tracker)
    → Inv t
    → known k key t ≡ some p
    → Found k key p t
known-Found k key p t i e = record {
  by_local = λ n. ground (arith, e, n);
  by_remote = λ z. ground (arith, e, z);
  usable = λ z. (i.remote_ok key p (ground (arith, e, z))).0;
}

pub get_flow_then-is_ok :
    (k : ℕ) (key : CmFlowKey) (next : Ptr → M (Unit {0})) (accepts : Ptr → Bool) (t : Tracker)
    → Inv t
    → ((p : Ptr) → Found k key p t → is_ok (next p t) ≡ accepts p)
    → ((p : Ptr) (u : Tracker) → IsNew k key p u → is_ok (next p u) ≡ true)
    → is_ok (and_then (get_flow k key t) next) ≡ returns k key accepts t
get_flow_then-is_ok k key next accepts t i old new = elim (Option-cases (known k key t)) [
  | inr (p, e) ↦
      let f = known-Found k key p t i e in
      let finds = sym (get_flow-is_ok k key t i) ∙ ap is_ok (get_flow-Found k key p t f) in
      rw (get_flow-Found k key p t f, finds, e) (old p f)
  | inl e ↦ is_ok-bind next (get_flow-IsNew k key t i e) (get_flow-is_ok k key t i) new ∙ rw e refl
]
