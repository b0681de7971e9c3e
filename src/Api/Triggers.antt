-- ===== src/Api/Triggers.antt =====
-- Which flows a webhook (webhook.go) starts.
use flowgent.Prelude.{
  ◌≢◌, ◌∙◌, String, true, List, [], ◌∷◌, ◌≡◌, ◌↔◌, ◌⊎◌, inl, inr, refl, sym, subst, Memᴰ,
  Bool-cases, true-false, is_empty, if◌then◌else◌,
}
use flowgent.Dag.{Flow, TriggerDef}
use flowgent.Api.Flows.{Handler, Services}
use flowgent.Api.Handlers.{Created, no_flow, failed, created, create_run_from_trigger}
use flowgent.Api.Events.{WebhookEvent, Codec}
use flowgent.Api.Webhook.{
  has_event, fires, some_fires, matches_webhook_trigger, webhook_vars, trigger_of, dispatch_to,
}

module _ (codec : Codec) where
  open codec use {equal_fold}

  -- The trigger is a webhook of the event's provider, for every event or one that it lists.
  pub record Fires (t : TriggerDef) (evt : WebhookEvent) : Type 0 where
    pub is_webhook : equal_fold t.type "webhook" ≡ true
    pub of_provider : equal_fold t.provider evt.provider ≡ true
    pub of_event :
        (t.events ≡ []) ⊎ ((e : String) × Memᴰ e t.events × (equal_fold e evt.event ≡ true))

  -- The flow has such a trigger.
  abbrev pub IsTriggered : Flow → WebhookEvent → Type 0
  IsTriggered spec evt = (t : TriggerDef) × Memᴰ t spec.triggers × Fires t evt

  has_event-true :
      (events : List String) (event : String)
      → has_event codec events event ≡ true
      → (e : String) × Memᴰ e events × (equal_fold e event ≡ true)
  unfolding has_event
  has_event-true [] event h = cc
  has_event-true (e ∷ events) event h = elim (Bool-cases (equal_fold e event)) [
    | inl q ↦ (e, Memᴰ.head refl, q)
    | inr q ↦
        let (x, m, y) = has_event-true events event (rw (has_event, q) at h) in (x, Memᴰ.tail m, y)
  ]

  has_event-mem :
      {e : String} {events : List String} (event : String)
      → Memᴰ e events
      → equal_fold e event ≡ true
      → has_event codec events event ≡ true
  unfolding has_event
  has_event-mem event (Memᴰ.head q) h =
      rw (has_event, subst (λ z. equal_fold z event ≡ true) q h) refl
  has_event-mem event (Memᴰ.tail {x = y} m) h = elim (Bool-cases (equal_fold y event)) [
    | inl q ↦ rw (has_event, q) refl
    | inr q ↦ rw (has_event, q) (has_event-mem event m h)
  ]

  event_test :
      (events : List String) (event : String)
      → ((if is_empty events then true else has_event codec events event) ≡ true)
        ↔ ((events ≡ []) ⊎ ((e : String) × Memᴰ e events × (equal_fold e event ≡ true)))
  event_test [] event = ((λ h. inl refl), (λ h. refl))
  event_test (x ∷ events) event = (
    (λ h. inr (has_event-true (x ∷ events) event h)),
    (λ h. elim h [ inl q ↦ cc | inr (e, m, y) ↦ has_event-mem event m y ]),
  )

  fires_iff : (t : TriggerDef) (evt : WebhookEvent) → (fires codec t evt ≡ true) ↔ Fires t evt
  unfolding fires
  fires_iff t evt = (
    (λ h. elim (Bool-cases (equal_fold t.type "webhook")) [
      | inl a ↦ elim (Bool-cases (equal_fold t.provider evt.provider)) [
        | inl b ↦ record {
          is_webhook = a;
          of_provider = b;
          of_event = (event_test t.events evt.event).0 (rw (fires, a, b) at h);
        }
        | inr b ↦ absurd (true-false (sym (rw (fires, a, b) at h)))
      ]
      | inr a ↦ absurd (true-false (sym (rw (fires, a) at h)))
    ]),
    (λ f. rw (fires, f.is_webhook, f.of_provider) ((event_test t.events evt.event).1 f.of_event)),
  )

  some_fires-true :
      (ts : List TriggerDef) (evt : WebhookEvent)
      → some_fires codec ts evt ≡ true
      → (t : TriggerDef) × Memᴰ t ts × Fires t evt
  unfolding some_fires
  some_fires-true [] evt h = cc
  some_fires-true (t ∷ ts) evt h = elim (Bool-cases (fires codec t evt)) [
    | inl q ↦ (t, Memᴰ.head refl, (fires_iff t evt).0 q)
    | inr q ↦
        let (x, m, y) = some_fires-true ts evt (rw (some_fires, q) at h) in (x, Memᴰ.tail m, y)
  ]

  some_fires-mem :
      {t : TriggerDef} {ts : List TriggerDef} (evt : WebhookEvent)
      → Memᴰ t ts
      → Fires t evt
      → some_fires codec ts evt ≡ true
  unfolding some_fires
  some_fires-mem evt (Memᴰ.head q) f =
      rw (some_fires, subst (λ z. fires codec z evt ≡ true) q ((fires_iff _ evt).1 f)) refl
  some_fires-mem evt (Memᴰ.tail {x = y} m) f = elim (Bool-cases (fires codec y evt)) [
    | inl q ↦ rw (some_fires, q) refl
    | inr q ↦ rw (some_fires, q) (some_fires-mem evt m f)
  ]

  matches_iff :
      (spec : Flow) (evt : WebhookEvent)
      → (matches_webhook_trigger codec spec evt ≡ true) ↔ IsTriggered spec evt
  unfolding matches_webhook_trigger
  matches_iff spec evt =
      ((λ h. some_fires-true spec.triggers evt h), (λ (t, m, f). some_fires-mem evt m f))

  module _ (services : Services) (evt : WebhookEvent) (h : Handler) where
    open services use {S}

    -- CreateRunFromTrigger, as dispatch calls it in the state `s`.
    abbrev pub create : Flow → S → S × Created
    create spec s =
        create_run_from_trigger services spec.id (webhook_vars codec spec evt)
          (trigger_of codec evt) h s

    -- What the loop over some flows is to do from a state, to the state and the identifiers behind it:
    -- a flow that the event triggers gets one run, in order, and its identifier is listed if the run
    -- was created; nothing is done for another flow.
    pub data IsDispatch : List Flow → S → S → List String → Type 0 where
      ended : (s : S) → IsDispatch [] s s []
      passes_over :
          (spec : Flow) (flows : List Flow) (s s' : S) (ids : List String)
          → (IsTriggered spec evt → ⊥)
          → IsDispatch flows s s' ids
          → IsDispatch (spec ∷ flows) s s' ids
      runs :
          (spec : Flow) (flows : List Flow) (s s' : S) (ids : List String) (id : String)
          → IsTriggered spec evt
          → (create spec s).1 ≡ created id
          → IsDispatch flows (create spec s).0 s' ids
          → IsDispatch (spec ∷ flows) s s' (id ∷ ids)
      fails :
          (spec : Flow) (flows : List Flow) (s s' : S) (ids : List String)
          → IsTriggered spec evt
          → ((id : String) → (create spec s).1 ≢ created id)
          → IsDispatch flows (create spec s).0 s' ids
          → IsDispatch (spec ∷ flows) s s' ids

    Created-cases :
        (c : Created)
        → ((id : String) × (c ≡ created id)) ⊎ ((c ≡ no_flow) ⊎ ((e : String) × (c ≡ failed e)))
    Created-cases no_flow = inr (inl refl)
    Created-cases (failed e) = inr (inr (e, refl))
    Created-cases (created id) = inl (id, refl)

    no_flow-created : (id : String) → no_flow ≢ created id
    no_flow-created id h = cc

    failed-created : (e id : String) → failed e ≢ created id
    failed-created e id h = cc

    dispatches :
        (flows : List Flow) (s : S)
        → IsDispatch flows s
            (dispatch_to codec services flows evt h s).0
            (dispatch_to codec services flows evt h s).1
    unfolding dispatch_to
    dispatches [] s = ended s
    dispatches (x ∷ flows) s = elim (Bool-cases (matches_webhook_trigger codec x evt)) [
      | inr q ↦
          rw (dispatch_to, q)
            (passes_over x flows s _ _ (λ t. true-false (sym ((matches_iff x evt).1 t) ∙ q))
              (dispatches flows s))
      | inl q ↦
          let t = (matches_iff x evt).0 q in
          let rest = dispatches flows (create x s).0 in
          elim (Created-cases (create x s).1) [
            | inl (id, c) ↦ rw (dispatch_to, q, c) (runs x flows s _ _ id t c rest)
            | inr (inl c) ↦
                rw (dispatch_to, q, c)
                  (fails x flows s _ _ t (λ id e. no_flow-created id (sym c ∙ e)) rest)
            | inr (inr (f, c)) ↦
                rw (dispatch_to, q, c)
                  (fails x flows s _ _ t (λ id e. failed-created f id (sym c ∙ e)) rest)
          ]
    ]

-- The dispatch of a webhook's event creates one run, in their order, for each of the cached flows with
-- a trigger of type webhook, of the event's provider and for the event, or for every event, and lists
-- the identifiers of those that were created; a run that fails stops no other, and nothing is done for
-- another flow.
pub dispatch_to-IsDispatch :
    (codec : Codec) (services : Services) (flows : List Flow) (evt : WebhookEvent) (h : Handler)
    (s : services.S)
    → IsDispatch codec services evt h flows s
        (dispatch_to codec services flows evt h s).0
        (dispatch_to codec services flows evt h s).1
dispatch_to-IsDispatch codec services flows evt h s = dispatches codec services evt h flows s
