-- ===== src/Monitoring/Window.antt =====
-- ai-engine/creditiq_ai/model_operations/monitoring/in_memory.py: the window of events of one
-- process, and the monitor that the decision engine is given.
use credit_iq_ai.Prelude.{
  map, ◌≡◌, refl, sym, ap, subst, ◌∙◌, ℕ, ◌+◌, ◌≤◌, true, false, some, List, [], ◌∷◌, ◌++◌, length,
  length-append, leb, if◌then◌else◌, arith, Bool-cases, inl, inr,
}
use mathlib.Core.List.{append-nil, append_assoc}
use credit_iq_ai.Float.{Float}
use credit_iq_ai.Errors.{ok}
use credit_iq_ai.Decision.{InferenceEvent, MonitoringSink, DecisionRequest, UnifiedDecision}
use credit_iq_ai.Decision.Engine.{Engine, decide, record_monitoring, event_of}
use credit_iq_ai.Decision.Safety.{decide_inv}
use credit_iq_ai.Monitoring.{Thresholds, MonitoringSnapshot, aggregate_events}

-- Drops the oldest elements beyond `size`.
abbrev pub keep_last : {A : Type 0} → ℕ → List A → List A
keep_last size [] = []
keep_last size (x ∷ xs) =
    let rest = keep_last size xs in if leb (length (x ∷ xs)) size then x ∷ xs else rest

-- `deque(maxlen=...).append`
unfoldable pub record_window :
    {N : Type 0}
    → Thresholds N
    → List (InferenceEvent N)
    → InferenceEvent N
    → List (InferenceEvent N)
record_window c events event =
    if c.enabled then keep_last c.retention_events (events ++ (event ∷ [])) else events

unfoldable pub snapshot :
    (F : Float)
    → Thresholds (F.Number)
    → List (InferenceEvent (F.Number))
    → MonitoringSnapshot (F.Number)
snapshot F c events = aggregate_events F events c

abbrev pub in_memory_monitor :
    {N : Type 0} → Thresholds N → MonitoringSink N (List (InferenceEvent N))
in_memory_monitor c = record { record_event = λ events event. ok (record_window c events event) }

length-keep_last : {A : Type 0} (size : ℕ) (xs : List A) → length (keep_last size xs) ≤ size
length-keep_last size [] = omega arith
length-keep_last size (x ∷ xs) = elim (Bool-cases (leb (length (x ∷ xs)) size)) [
  | inl fits ↦ rw fits (ground arith)
  | inr full ↦ rw full (length-keep_last size xs)
]

keep_last-fits : {A : Type 0} (size : ℕ) (xs : List A) → length xs ≤ size → keep_last size xs ≡ xs
keep_last-fits size [] h = refl
keep_last-fits size (x ∷ xs) h =
    let fits : leb (length (x ∷ xs)) size ≡ true = ground arith in rw fits refl

keep_last-append :
    {A : Type 0} (size : ℕ) (xs ys : List A)
    → keep_last size (keep_last size xs ++ ys) ≡ keep_last size (xs ++ ys)
keep_last-append size [] ys = refl
keep_last-append size (x ∷ xs) ys = elim (Bool-cases (leb (length (x ∷ xs)) size)) [
  | inl fits ↦ rw fits refl
  | inr full ↦
      let sum : length (xs ++ ys) ≡ length xs + length ys = length-append xs ys in
      let longer : leb (length (x ∷ xs ++ ys)) size ≡ false = ground arith in
      rw full (rw longer (keep_last-append size xs ys))
]

record_window-on :
    {N : Type 0} (c : Thresholds N) (events : List (InferenceEvent N)) (event : InferenceEvent N)
    → c.enabled ≡ true
    → record_window c events event ≡ keep_last c.retention_events (events ++ (event ∷ []))
unfolding record_window
record_window-on c events event on = rw on refl

module _ (F : Float) (c : Thresholds (F.Number))
    (e : Engine F (List (InferenceEvent (F.Number)))) where
  -- Decisions one after the other, each with the window that the one before left.
  pub data Decides
      : List (InferenceEvent (F.Number))
        → List (UnifiedDecision (F.Number))
        → List (InferenceEvent (F.Number))
        → Type 0 where
    none_taken : {s : List (InferenceEvent (F.Number))} → Decides s [] s
    taken :
        {s t u : List (InferenceEvent (F.Number))} {d : UnifiedDecision (F.Number)}
        {ds : List (UnifiedDecision (F.Number))} (duration : F.Number)
        (request : DecisionRequest (F.Number))
        → decide F e s duration request ≡ ok (d, t)
        → Decides t ds u
        → Decides s (d ∷ ds) u

  -- One decision adds its own event.
  decide-record_window :
      (s : List (InferenceEvent (F.Number))) (duration : F.Number)
      (request : DecisionRequest (F.Number)) {d : UnifiedDecision (F.Number)}
      {t : List (InferenceEvent (F.Number))}
      → e.monitor ≡ some (in_memory_monitor c)
      → decide F e s duration request ≡ ok (d, t)
      → t ≡ record_window c s (event_of F d)
  unfolding record_monitoring
  decide-record_window s duration request {d} {t} monitored h =
      let (d', hd, hr) = decide_inv F e s duration request h in
      let written : (d', record_window c s (event_of F d')) ≡ (d, t) =
        subst (λ m. record_monitoring F m s d' ≡ (d, t)) monitored hr in
      let one : d' ≡ d = ap (λ x. x.0) written in
      let two : record_window c s (event_of F d') ≡ t = ap (λ x. x.1) written in
      sym two ∙ ap (λ x. record_window c s (event_of F x)) one

  -- While the monitor is on and its window holds no more than `retention_events`, decisions one after
  -- the other leave the last `retention_events` of the events of the window and of these decisions,
  -- in order, and no more than so many.
  pub Decides-keep_last :
      (s : List (InferenceEvent (F.Number))) {ds : List (UnifiedDecision (F.Number))}
      {t : List (InferenceEvent (F.Number))}
      → e.monitor ≡ some (in_memory_monitor c)
      → c.enabled ≡ true
      → length s ≤ c.retention_events
      → Decides s ds t
      → (t ≡ keep_last c.retention_events (s ++ map (event_of F) ds))
        × (length t ≤ c.retention_events)
  Decides-keep_last s monitored on h none_taken = (
    sym (keep_last-fits c.retention_events s h)
        ∙ ap (keep_last c.retention_events) (sym (append-nil s)),
    h,
  )
  Decides-keep_last s {ds = d ∷ ds} monitored on h (taken {t = t} duration request first rest) =
      let step =
        decide-record_window s duration request monitored first
        ∙ record_window-on c s (event_of F d) on in
      let fits : length t ≤ c.retention_events =
        subst (λ w. length w ≤ c.retention_events) (sym step)
          (length-keep_last c.retention_events (s ++ (event_of F d ∷ []))) in
      let (later, bounded) = Decides-keep_last t monitored on fits rest in
      (
        later
            ∙ ap (λ w. keep_last c.retention_events (w ++ map (event_of F) ds)) step
            ∙ keep_last-append c.retention_events (s ++ (event_of F d ∷ [])) (map (event_of F) ds)
            ∙ ap (keep_last c.retention_events)
                (append_assoc s (event_of F d ∷ []) (map (event_of F) ds)),
        bounded,
      )
