-- ===== src/Engine/Job/Lifecycle.antt =====
-- Runs of the job lifecycle.
use ark_forge.Prelude.{List, [], ◌∷◌, subst, Bool, true, false, ◌≡◌, ◌≢◌, refl, arith}
use ark_forge.Engine.Job.{
  JobState, planned, awaiting_start, preflight, awaiting_permit, step_intent_durable, dispatching,
  receipt_durable, checkpointed, rebind_wait, postflight, succeeded, confirmed_failed,
  cancelled_safe, outcome_unknown, reconciling, recovery_assessable, is_terminal,
  permits_external_dispatch, may_transition_to, Reaches, here, next,
}

terminal_stops : (s t : JobState) → is_terminal s ≡ true → may_transition_to s t ≡ false
unfolding is_terminal may_transition_to
terminal_stops s t h = ground arith

-- A terminal state is final: every run that starts in one stays there.
pub Reaches-terminal : (s t : JobState) → is_terminal s ≡ true → Reaches s t → t ≡ s
Reaches-terminal s t h here = refl
Reaches-terminal s t h (next {s = m} run e) =
    let same = Reaches-terminal s m h run in ground (arith, terminal_stops s t h)

-- The states that a run may visit once an outcome is unknown.
unfoldable is_aftermath : JobState → Bool
is_aftermath outcome_unknown = true
is_aftermath reconciling = true
is_aftermath recovery_assessable = true
is_aftermath succeeded = true
is_aftermath confirmed_failed = true
is_aftermath _ = false

aftermath_closed :
    (s t : JobState) → is_aftermath s ≡ true → may_transition_to s t ≡ true → is_aftermath t ≡ true
unfolding is_aftermath may_transition_to
aftermath_closed s t h e = ground arith

Reaches-aftermath : (t : JobState) → Reaches outcome_unknown t → is_aftermath t ≡ true
unfolding is_aftermath
Reaches-aftermath _ here = refl
Reaches-aftermath t (next {s = m} run e) = aftermath_closed m t (Reaches-aftermath m run) e

-- After an unknown outcome no run ever permits a dispatch again, or is dispatching.
pub Reaches-outcome_unknown :
    (t : JobState)
    → Reaches outcome_unknown t
    → (permits_external_dispatch t ≡ false) × (t ≢ dispatching)
unfolding permits_external_dispatch is_aftermath
Reaches-outcome_unknown t run =
    let after = Reaches-aftermath t run in (ground arith, λ e. ground arith)

-- The states of a run, the latest first.
abbrev pub trace : {s t : JobState} → Reaches s t → List JobState
trace {s = s} here = s ∷ []
trace {t = t} (next run e) = t ∷ trace run

into_dispatching : (s : JobState) → may_transition_to s dispatching ≡ true → s ≡ step_intent_durable
unfolding may_transition_to
into_dispatching s e = ground arith

into_intent : (s : JobState) → may_transition_to s step_intent_durable ≡ true → s ≡ awaiting_permit
unfolding may_transition_to
into_intent s e = ground arith

into_permit : (s : JobState) → may_transition_to s awaiting_permit ≡ true → s ≡ preflight
unfolding may_transition_to
into_permit s e = ground arith

trace_last :
    (t : JobState) (run : Reaches planned t) → (before : List JobState) × (trace run ≡ t ∷ before)
trace_last _ here = ([], refl)
trace_last t (next run e) = (trace run, refl)

trace_permit :
    (t : JobState) (run : Reaches planned t)
    → t ≡ awaiting_permit
    → (before : List JobState) × (trace run ≡ awaiting_permit ∷ preflight ∷ before)
trace_permit _ here same = cc
trace_permit t (next {s = m} run e) same =
    let from = into_permit m (subst (λ x. may_transition_to m x ≡ true) same e) in
    let (before, p) = trace_last m run in (before, cc)

trace_intent :
    (t : JobState) (run : Reaches planned t)
    → t ≡ step_intent_durable
    → (before : List JobState) × (trace run
        ≡ step_intent_durable ∷ awaiting_permit ∷ preflight ∷ before)
trace_intent _ here same = cc
trace_intent t (next {s = m} run e) same =
    let from = into_intent m (subst (λ x. may_transition_to m x ≡ true) same e) in
    let (before, p) = trace_permit m run from in (before, cc)

-- Each run from `planned` that is dispatching came there by a preflight, the wait for a permit and a
-- durable intent, one right behind the other.
pub Reaches-dispatching :
    (t : JobState) (run : Reaches planned t)
    → t ≡ dispatching
    → (before : List JobState) × (trace run
        ≡ dispatching ∷ step_intent_durable ∷ awaiting_permit ∷ preflight ∷ before)
Reaches-dispatching _ here same = cc
Reaches-dispatching t (next {s = m} run e) same =
    let from = into_dispatching m (subst (λ x. may_transition_to m x ≡ true) same e) in
    let (before, p) = trace_intent m run from in (before, cc)

-- From every state some run ends in a terminal state.
pub terminal_reachable : (s : JobState) → (t : JobState) × Reaches s t × (is_terminal t ≡ true)
unfolding is_terminal may_transition_to
terminal_reachable succeeded = (succeeded, here, refl)
terminal_reachable confirmed_failed = (confirmed_failed, here, refl)
terminal_reachable cancelled_safe = (cancelled_safe, here, refl)
terminal_reachable recovery_assessable = (recovery_assessable, here, refl)
terminal_reachable preflight = (cancelled_safe, next here refl, refl)
terminal_reachable awaiting_permit = (cancelled_safe, next here refl, refl)
terminal_reachable dispatching = (cancelled_safe, next here refl, refl)
terminal_reachable checkpointed = (cancelled_safe, next here refl, refl)
terminal_reachable rebind_wait = (cancelled_safe, next here refl, refl)
terminal_reachable postflight = (succeeded, next here refl, refl)
terminal_reachable outcome_unknown = (recovery_assessable, next here refl, refl)
terminal_reachable reconciling = (succeeded, next here refl, refl)
terminal_reachable awaiting_start =
    (cancelled_safe, next {s = preflight} (next {s = awaiting_start} here refl) refl, refl)
terminal_reachable planned = (
  cancelled_safe,
  next {s = preflight} (next {s = awaiting_start} (next {s = planned} here refl) refl) refl,
  refl,
)
terminal_reachable step_intent_durable =
    (cancelled_safe, next {s = dispatching} (next here refl) refl, refl)
terminal_reachable receipt_durable =
    (cancelled_safe, next {s = checkpointed} (next here refl) refl, refl)
