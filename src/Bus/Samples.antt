-- ===== src/Bus/Samples.antt =====
-- A hub whose plugin host hangs up in the middle.
use shelldon.Base.{ℕ, none, Bool, false, List, [], ◌∷◌, ◌++◌, ◌≡◌, refl, select, ◌==◌}
use shelldon.Bus.{
  Actor, core, worker, plugin_host, chat_transport, MsgKind, result, event, inbound_msg, Envelope,
  Hub, new_hub, register_client, route_all,
}
use shelldon.Bus.Routing.{is_for_core, envelopes, route_all_inbox}

abbrev frame : MsgKind → Actor → Envelope ℕ
frame k a = record { id = "1"; kind = k; src = a; dst = none; body = 0; turn_id = none }

abbrev traffic : List ((ℕ → Bool) × Envelope ℕ)
traffic =
    ((λ c. false), frame inbound_msg chat_transport)
    ∷ ((λ c. c == 7), frame event core)
    ∷ ((λ c. c == 7), frame event plugin_host)
    ∷ ((λ c. c == 7), frame result worker)
    ∷ []

abbrev hub : Hub ℕ
hub = register_client plugin_host 7 new_hub

route_all_inbox_example :
    (route_all traffic hub).core_inbox ≡ hub.core_inbox ++ select is_for_core (envelopes traffic)
route_all_inbox_example = route_all_inbox traffic hub

hung_up : (route_all traffic hub).registry 5 ≡ none
unfolding route_all register_client new_hub
hung_up = refl
