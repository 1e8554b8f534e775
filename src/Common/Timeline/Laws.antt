-- ===== src/Common/Timeline/Laws.antt =====
-- Laws of the timeline of an order.
use buchuqin_api.Prelude.{
  ℕ, ◌≡◌, refl, ◌⊎◌, inl, inr, Bool, true, false, List, [], ◌∷◌, Option, none, some, ap, arith,
  if◌then◌else◌, is_some, Bool-cases, ◌∙◌,
}
use buchuqin_api.Common.Status.{Status}
use buchuqin_api.Common.Timeline.{
  StepKey, is_key, TimelineStep, step_key_for_status, has_step, mark_key, complete_step, stamp_last,
  mark_timeline_step, keys, last_time,
}

complete_step-keys :
    (now : ℕ) (k : StepKey) (tl : List TimelineStep) → keys (complete_step now k tl) ≡ keys tl
unfolding complete_step
complete_step-keys now k [] = refl
complete_step-keys now k (s ∷ ss) = ground (arith, complete_step-keys now k ss)

stamp_last-keys : (now : ℕ) (tl : List TimelineStep) → keys (stamp_last now tl) ≡ keys tl
unfolding stamp_last
stamp_last-keys now [] = refl
stamp_last-keys now (s ∷ []) = ground arith
stamp_last-keys now (s ∷ t ∷ ss) = ap (◌∷◌ s.key) (stamp_last-keys now (t ∷ ss))

stamp_last_idem :
    (now later : ℕ) (tl : List TimelineStep)
    → stamp_last now (stamp_last later tl) ≡ stamp_last later tl
unfolding stamp_last
stamp_last_idem now later [] = refl
stamp_last_idem now later (s ∷ []) = ground arith
stamp_last_idem now later (s ∷ t ∷ []) = ap (◌∷◌ s) (stamp_last_idem now later (t ∷ []))
stamp_last_idem now later (s ∷ t ∷ u ∷ ss) = ap (◌∷◌ s) (stamp_last_idem now later (t ∷ u ∷ ss))

complete_step_idem :
    (now later : ℕ) (k : StepKey) (tl : List TimelineStep)
    → complete_step now k (complete_step later k tl) ≡ complete_step later k tl
unfolding complete_step
complete_step_idem now later k [] = refl
complete_step_idem now later k (s ∷ ss) = ground (arith, complete_step_idem now later k ss)

has_step-complete_step :
    (now : ℕ) (k : StepKey) (tl : List TimelineStep)
    → has_step k (complete_step now k tl) ≡ has_step k tl
unfolding complete_step
has_step-complete_step now k [] = refl
has_step-complete_step now k (s ∷ ss) = ground (arith, has_step-complete_step now k ss)

has_step-stamp_last :
    (now : ℕ) (k : StepKey) (tl : List TimelineStep)
    → has_step k (stamp_last now tl) ≡ has_step k tl
unfolding stamp_last
has_step-stamp_last now k [] = refl
has_step-stamp_last now k (s ∷ []) = ground arith
has_step-stamp_last now k (s ∷ t ∷ ss) = ground (arith, has_step-stamp_last now k (t ∷ ss))

mark_key-keys :
    (now : ℕ) (k : Option StepKey) (tl : List TimelineStep) → keys (mark_key now k tl) ≡ keys tl
unfolding mark_key
mark_key-keys now none tl = stamp_last-keys now tl
mark_key-keys now (some k) tl = ground (arith, stamp_last-keys now tl, complete_step-keys now k tl)

mark_key_idem :
    (now later : ℕ) (k : Option StepKey) (tl : List TimelineStep)
    → mark_key later k (mark_key now k tl) ≡ mark_key now k tl
unfolding mark_key
mark_key_idem now later none tl = stamp_last_idem later now tl
mark_key_idem now later (some k) tl = elim (Bool-cases (has_step k tl)) [
  | inl h ↦ rw (h, has_step-complete_step now k tl, h) (complete_step_idem later now k tl)
  | inr h ↦ rw (h, has_step-stamp_last now k tl, h) (stamp_last_idem later now tl)
]

-- Marking a state never adds, drops or reorders a step: the keys stay as they are.
pub mark_timeline_step-keys :
    (now : ℕ) (tl : List TimelineStep) (s : Status) → keys (mark_timeline_step now tl s) ≡ keys tl
unfolding mark_timeline_step
mark_timeline_step-keys now tl s = mark_key-keys now (step_key_for_status s) tl

-- Marking the same state again, at whatever time, changes nothing: the first time is kept.
pub mark_timeline_step_idem :
    (now later : ℕ) (tl : List TimelineStep) (s : Status)
    → mark_timeline_step later (mark_timeline_step now tl s) s ≡ mark_timeline_step now tl s
unfolding mark_timeline_step
mark_timeline_step_idem now later tl s = mark_key_idem now later (step_key_for_status s) tl

-- Whether the first step with the key is done.
abbrev pub first_done : StepKey → List TimelineStep → Bool
first_done k [] = false
first_done k (s ∷ ss) = let rest = first_done k ss in if is_key s.key k then s.done else rest

abbrev pub IsTraced : Option StepKey → List TimelineStep → Type 0
IsTraced none tl = is_some (last_time tl) ≡ true
IsTraced (some k) tl =
    (first_done k tl ≡ true) ⊎ ((has_step k tl ≡ false) × (is_some (last_time tl) ≡ true))

complete_step-done :
    (now : ℕ) (k : StepKey) (tl : List TimelineStep)
    → has_step k tl ≡ true
    → first_done k (complete_step now k tl) ≡ true
unfolding complete_step
complete_step-done now k [] h = cc
complete_step-done now k (s ∷ ss) h = ground (arith, complete_step-done now k ss)

stamp_last-last_time :
    (now : ℕ) (s : TimelineStep) (tl : List TimelineStep)
    → is_some (last_time (stamp_last now (s ∷ tl))) ≡ true
unfolding stamp_last
stamp_last-last_time now s [] = ground arith
stamp_last-last_time now s (t ∷ []) = ground arith
stamp_last-last_time now s (t ∷ u ∷ ss) = stamp_last-last_time now t (u ∷ ss)

mark_key-IsTraced :
    (now : ℕ) (s : TimelineStep) (tl : List TimelineStep) (k : Option StepKey)
    → IsTraced k (mark_key now k (s ∷ tl))
unfolding mark_key
mark_key-IsTraced now s tl none = stamp_last-last_time now s tl
mark_key-IsTraced now s tl (some k) = elim (Bool-cases (has_step k (s ∷ tl))) [
  | inl h ↦ rw h (inl (complete_step-done now k (s ∷ tl) h))
  | inr h ↦ rw h (inr (has_step-stamp_last now k (s ∷ tl) ∙ h, stamp_last-last_time now s tl))
]

-- On a timeline that is not empty, marking a state leaves a trace of it: the step of the state is
-- done, or, where the timeline has no such step, the last step has a time.
pub mark_timeline_step-IsTraced :
    (now : ℕ) (s : TimelineStep) (tl : List TimelineStep) (st : Status)
    → let marked = mark_timeline_step now (s ∷ tl) st in IsTraced (step_key_for_status st) marked
unfolding mark_timeline_step
mark_timeline_step-IsTraced now s tl st = mark_key-IsTraced now s tl (step_key_for_status st)
