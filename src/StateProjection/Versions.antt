-- ===== src/StateProjection/Versions.antt =====
-- What `apply` guarantees: no version goes back, no unsupported state is shown, and what is
-- rejected changes nothing.
use mesflow_kiosk_runtime_v.Prelude.{
  ℕ, ◌≤◌, ◌<◌, ◌≡◌, ◌≢◌, refl, Bool, true, false, and-parts, List, [], ◌∷◌, arith, int_eq_refl,
  eq-of-int_eq, bytes_eq_refl, eq-of-bytes_eq,
}
use mesflow_kiosk_runtime_v.StateProjection.{
  BusinessState, unsupported, ViewModel, StateSnapshot, Projection, ApplyResult, applied,
  applied_identical, rejected_stale, rejected_inconsistent, rejected_unsupported, apply, apply_all,
  snapshot_eq, view_eq, bool_eq, state_eq, business_state_to_string, business_state_from_string,
  wait_employee, wait_operation, session_active, quantity_input, device_disabled, maintenance,
}

bool_eq_sound : (a b : Bool) → bool_eq a b ≡ true → a ≡ b
bool_eq_sound true true h = refl
bool_eq_sound true false h = cc
bool_eq_sound false true h = cc
bool_eq_sound false false h = refl

state_eq_sound : (a b : BusinessState) → state_eq a b ≡ true → a ≡ b
state_eq_sound a b h = ground arith

state_eq_refl : (a : BusinessState) → state_eq a a ≡ true
state_eq_refl a = ground arith

view_eq_sound : (v o : ViewModel) → view_eq v o ≡ true → v ≡ o
unfolding view_eq
view_eq_sound v o h₁₃ =
    let (h₁₂, e₁₃) = and-parts _ _ h₁₃ in
    let (h₁₁, e₁₂) = and-parts _ _ h₁₂ in
    let (h₁₀, e₁₁) = and-parts _ _ h₁₁ in
    let (h₉, e₁₀) = and-parts _ _ h₁₀ in
    let (h₈, e₉) = and-parts _ _ h₉ in
    let (h₇, e₈) = and-parts _ _ h₈ in
    let (h₆, e₇) = and-parts _ _ h₇ in
    let (h₅, e₆) = and-parts _ _ h₆ in
    let (h₄, e₅) = and-parts _ _ h₅ in
    let (h₃, e₄) = and-parts _ _ h₄ in
    let (h₂, e₃) = and-parts _ _ h₃ in
    let (h₁, e₂) = and-parts _ _ h₂ in
    let (h₀, e₁) = and-parts _ _ h₁ in
    λ i. record {
      has_employee_name = bool_eq_sound v.has_employee_name o.has_employee_name h₀ i;
      employee_name = eq-of-bytes_eq v.employee_name o.employee_name e₁ i;
      has_operation_code = bool_eq_sound v.has_operation_code o.has_operation_code e₂ i;
      operation_code = eq-of-bytes_eq v.operation_code o.operation_code e₃ i;
      has_operation_name = bool_eq_sound v.has_operation_name o.has_operation_name e₄ i;
      operation_name = eq-of-bytes_eq v.operation_name o.operation_name e₅ i;
      has_session_id = bool_eq_sound v.has_session_id o.has_session_id e₆ i;
      session_id = eq-of-bytes_eq v.session_id o.session_id e₇ i;
      has_started_at = bool_eq_sound v.has_started_at o.has_started_at e₈ i;
      started_at = eq-of-bytes_eq v.started_at o.started_at e₉ i;
      has_target_qty = bool_eq_sound v.has_target_qty o.has_target_qty e₁₀ i;
      target_qty = eq-of-int_eq v.target_qty o.target_qty e₁₁ i;
      has_produced_qty = bool_eq_sound v.has_produced_qty o.has_produced_qty e₁₂ i;
      produced_qty = eq-of-int_eq v.produced_qty o.produced_qty e₁₃ i;
    }

view_eq_refl : (v : ViewModel) → view_eq v v ≡ true
unfolding view_eq
view_eq_refl v = ground (
  arith,
  bytes_eq_refl v.employee_name,
  bytes_eq_refl v.operation_code,
  bytes_eq_refl v.operation_name,
  bytes_eq_refl v.session_id,
  bytes_eq_refl v.started_at,
  int_eq_refl v.target_qty,
  int_eq_refl v.produced_qty,
)

snapshot_eq_sound : (s o : StateSnapshot) → snapshot_eq s o ≡ true → s ≡ o
unfolding snapshot_eq
snapshot_eq_sound s o h =
    ground (arith, state_eq_sound s.state o.state, view_eq_sound s.view o.view)

snapshot_eq_refl : (s : StateSnapshot) → snapshot_eq s s ≡ true
unfolding snapshot_eq
snapshot_eq_refl s = ground (arith, state_eq_refl s.state, view_eq_refl s.view)

-- What the result says of the snapshot that came in and of the change that was made.
abbrev pub Outcome : StateSnapshot → Projection → Projection → ApplyResult → Type 0
Outcome s p q applied =
    (q ≡ record { has_snapshot = true; current = s })
    × (s.state ≢ unsupported)
    × (p.has_snapshot ≡ true → p.current.state_version < s.state_version)
Outcome s p q applied_identical = (q ≡ p) × (s ≡ p.current)
Outcome s p q rejected_stale = (q ≡ p) × (s.state_version < p.current.state_version)
Outcome s p q rejected_inconsistent =
    (q ≡ p) × (s.state_version ≡ p.current.state_version) × (s ≢ p.current)
Outcome s p q rejected_unsupported = (q ≡ p) × (s.state ≡ unsupported)

-- Each result of `apply` tells the truth: only a supported snapshot that is newer than the one held
-- replaces it; whatever else comes in leaves the projection as it was, and is reported as identical
-- only if every field agrees, as inconsistent only if the version agrees and some field does not,
-- as stale only if its version is older, and as unsupported only if its state is.
pub apply-Outcome : (s : StateSnapshot) (p : Projection) → Outcome s p (apply s p).0 (apply s p).1
unfolding apply
apply-Outcome s p =
    ground (arith, state_eq_sound s.state unsupported, snapshot_eq_sound s p.current, differs)
  where
    differs : snapshot_eq s p.current ≡ false → s ≢ p.current
    differs h e = cc (snapshot_eq_refl s)

-- A projection that holds a snapshot at least as new as version `v`.
abbrev pub Reaches : ℕ → Projection → Type 0
Reaches v q = (q.has_snapshot ≡ true) × (v ≤ q.current.state_version)

abbrev pub ReachesAll : List StateSnapshot → Projection → Type 0
ReachesAll [] q = Unit {0}
ReachesAll (s ∷ rest) q = (s.state ≢ unsupported → Reaches s.state_version q) × ReachesAll rest q

abbrev pub IsShown : Projection → Type 0
IsShown q = q.has_snapshot ≡ true → q.current.state ≢ unsupported

apply-Reaches : (s : StateSnapshot) (p : Projection) (v : ℕ) → Reaches v p → Reaches v (apply s p).0
unfolding apply
apply-Reaches s p v h = ground arith

apply-Reaches_self :
    (s : StateSnapshot) (p : Projection)
    → s.state ≢ unsupported
    → Reaches s.state_version (apply s p).0
unfolding apply
apply-Reaches_self s p h =
    ground (arith, state_eq_sound s.state unsupported, snapshot_eq_sound s p.current)

apply-IsShown : (s : StateSnapshot) (p : Projection) → IsShown p → IsShown (apply s p).0
unfolding apply
apply-IsShown s p h = ground (arith, state_eq_sound s.state unsupported)

apply_all-Reaches :
    (ss : List StateSnapshot) (p : Projection) (v : ℕ) → Reaches v p → Reaches v (apply_all ss p)
unfolding apply_all
apply_all-Reaches [] p v h = h
apply_all-Reaches (s ∷ rest) p v h = apply_all-Reaches rest (apply s p).0 v (apply-Reaches s p v h)

-- Whatever snapshots come in, in whatever order: the one held at the end is at least as new as any
-- held at the start and as every supported one that came in, and its state is never unsupported.
pub apply_all-latest :
    (ss : List StateSnapshot) (p : Projection)
    → IsShown p
    → ReachesAll ss (apply_all ss p)
      × (p.has_snapshot ≡ true → Reaches p.current.state_version (apply_all ss p))
      × IsShown (apply_all ss p)
unfolding apply_all
apply_all-latest [] p shown = (tt, λ h. (h, omega arith), shown)
apply_all-latest (s ∷ rest) p shown =
    let p' = (apply s p).0 in
    let (reached, _, shown') = apply_all-latest rest p' (apply-IsShown s p shown) in
    (
      (λ h. apply_all-Reaches rest p' s.state_version (apply-Reaches_self s p h), reached),
      λ h. apply_all-Reaches (s ∷ rest) p p.current.state_version (h, omega arith),
      shown',
    )

-- Every supported state is read back from the name that it is written with.
pub business_state-from_string :
    (s : BusinessState) → business_state_from_string (business_state_to_string s) ≡ s
unfolding business_state_to_string business_state_from_string
business_state-from_string wait_employee = refl
business_state-from_string wait_operation = refl
business_state-from_string session_active = refl
business_state-from_string quantity_input = refl
business_state-from_string device_disabled = refl
business_state-from_string maintenance = refl
business_state-from_string unsupported = refl
