-- ===== src/Bus/Routing.antt =====
-- Where the envelopes go.
use shelldon.Base.{
  ℕ, Option, none, some, Bool, true, false, not, List, [], ◌∷◌, ◌++◌, ◌==◌, ◌≡◌, refl, sym, ap, ◌∙◌,
  inl, inr, append-nil, append_assoc, if◌then◌else◌, Bool-cases, select,
}
use shelldon.Bus.{
  Actor, broker, worker, chat_transport, display, plugin_host, MsgKind, job, result, completion,
  inbound_msg, outbound_msg, state_snapshot, event, place, Envelope, routing_table, Hub, deregister,
  deliver_to, enqueue, forward, is_event, route, route_all, is_held_by,
}

-- What core reads: a Result, an owner's message, and an event that core did not publish itself.
unfoldable pub for_core : MsgKind → Actor → Bool
for_core result src = true
for_core inbound_msg src = true
for_core event src = not (place src == 0)
for_core job src = false
for_core completion src = false
for_core outbound_msg src = false
for_core state_snapshot src = false

abbrev pub is_for_core : {B : Type 0} → Envelope B → Bool
is_for_core env = for_core env.kind env.src

module _ {B : Type 0} (gone : ℕ → Bool) (env : Envelope B) where
  deregister_inbox : (a : Actor) (c : ℕ) (h : Hub B) → (deregister a c h).core_inbox ≡ h.core_inbox
  unfolding deregister
  deregister_inbox a c h = elim (Bool-cases (is_held_by (h.registry (place a)) c)) [
    | inl e ↦ rw e refl
    | inr e ↦ rw e refl
  ]

  deliver_inbox : (a : Actor) (h : Hub B) → (deliver_to gone a env h).core_inbox ≡ h.core_inbox
  unfolding deliver_to
  deliver_inbox a h = split (h.registry (place a)) refl
    where
      split :
          (o : Option ℕ)
          → h.registry (place a) ≡ o
          → (deliver_to gone a env h).core_inbox ≡ h.core_inbox
      split none e = rw (deliver_to, e) refl
      split (some c) e =
          rw (deliver_to, e)
            (elim (Bool-cases (gone c)) [
              | inl g ↦ rw g (deregister_inbox a c h)
              | inr g ↦ rw g refl
            ])

  route_inbox :
      (h : Hub B)
      → (route gone env h).core_inbox ≡ h.core_inbox ++ (if is_for_core env then env ∷ [] else [])
  unfolding route for_core is_event enqueue forward routing_table
  route_inbox h = by_kind env.kind
    where
      no_more : {a : List (Envelope B)} → a ≡ h.core_inbox → a ≡ h.core_inbox ++ []
      no_more e = e ∙ sym (append-nil h.core_inbox)

      by_kind :
          (k : MsgKind)
          → (if is_event k
              then (if place env.src == 0
                  then deliver_to gone plugin_host env h
                  else enqueue env (deliver_to gone plugin_host env h))
              else forward gone (routing_table k) env h).core_inbox
            ≡ h.core_inbox ++ (if for_core k env.src then env ∷ [] else [])
      by_kind job = no_more (deliver_inbox broker h)
      by_kind result = refl
      by_kind completion = no_more (deliver_inbox worker h)
      by_kind inbound_msg = refl
      by_kind outbound_msg = no_more (deliver_inbox chat_transport h)
      by_kind state_snapshot = no_more (deliver_inbox display h)
      by_kind event = elim (Bool-cases (place env.src == 0)) [
        | inl own ↦ rw own (no_more (deliver_inbox plugin_host h))
        | inr other ↦ rw other (ap (λ l. l ++ env ∷ []) (deliver_inbox plugin_host h))
      ]

module _ {B : Type 0} where
  abbrev pub envelopes : List ((ℕ → Bool) × Envelope B) → List (Envelope B)
  envelopes [] = []
  envelopes ((gone, env) ∷ es) = env ∷ envelopes es

  -- Whatever is routed and whichever connections fail, core's inbox receives every Result, every
  -- owner's message and every event published by another process, in order and once, and nothing
  -- else: core never hears its own events, and no failing client costs core a message.
  pub route_all_inbox :
      (es : List ((ℕ → Bool) × Envelope B)) (h : Hub B)
      → (route_all es h).core_inbox ≡ h.core_inbox ++ select is_for_core (envelopes es)
  unfolding route_all
  route_all_inbox [] h = sym (append-nil h.core_inbox)
  route_all_inbox ((gone, env) ∷ es) h =
      route_all_inbox es (route gone env h)
      ∙ ap (λ l. l ++ select is_for_core (envelopes es)) (route_inbox gone env h)
      ∙ joined (is_for_core env)
    where
      joined :
          (b : Bool)
          → (h.core_inbox ++ (if b then env ∷ [] else [])) ++ select is_for_core (envelopes es)
            ≡ h.core_inbox
              ++ (if b
                  then env ∷ select is_for_core (envelopes es)
                  else select is_for_core (envelopes es))
      joined true = append_assoc h.core_inbox (env ∷ []) (select is_for_core (envelopes es))
      joined false = ap (λ l. l ++ select is_for_core (envelopes es)) (append-nil h.core_inbox)
