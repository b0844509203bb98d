-- ===== src/Runtime/Screen.antt =====
-- shelldon/core/runtime.py: what core sends (replies, faces, captions, events), and the record of a
-- turn.
use shelldon.Base.{
  ℕ, suc, ◌+◌, ◌-◌, Option, none, some, Bool, true, false, ◌&&◌, ◌||◌, String, [], ◌∷◌, ◌++◌, ◌==◌,
  ltb, leb, length, take, any_pass, if◌then◌else◌,
}
use shelldon.Base.Result.{ok}
use shelldon.Base.Text.{Text, codes, strip, rstrip, is_blank, text_eq}
use shelldon.Display.{face, caption}
use shelldon.Faces.{Mood, select_face}
use shelldon.Fence.{fence_is_idle}
use shelldon.Arbiter.{is_idle}
use shelldon.History.{record_turn}
use shelldon.Plugins.{EventKind}
use shelldon.Runtime.{
  Body, Control, Sent, outbound, snapshot, broadcast, face_reply, face_degraded, degrade_text,
  caption_max, reaction_dwell, reaction_faces,
}
use shelldon.Runtime.Exec.{Exec, done, modify, attempt, perhaps, ◌>>◌}

abbrev ellipsis : Text
ellipsis = codes "…"

-- The characters at which `splitlines` breaks.
unfoldable pub is_line_break : ℕ → Bool
is_line_break c =
    (leb 10 c && leb c 13)
    || ((leb 28 c && leb c 30) || ((c == 133) || ((c == 8232) || (c == 8233))))

unfoldable pub first_line : Text → Text
unfolding is_line_break
first_line [] = []
first_line (c ∷ cs) = let rest = first_line cs in if is_line_break c then [] else c ∷ rest

unfoldable pub cut : Text → Text
cut line =
    if ltb caption_max (length line) then rstrip (take (caption_max - 1) line) ++ ellipsis else line

unfoldable pub caption_for : Text → Text
unfolding first_line cut
caption_for payload =
    if is_blank payload then ellipsis else cut (strip (first_line (strip payload)))

-- `token if token in _REACTION_FACES else FACE_REPLY`; `lower` is Python's.
unfoldable pub reaction_face : (Text → Text) → Text → Text
reaction_face lower chosen =
    if any_pass (λ f. text_eq f (lower (strip chosen))) reaction_faces
    then lower (strip chosen)
    else face_reply

unfoldable pub is_shown : Option Text → Text → Bool
is_shown none text = false
is_shown (some t) text = text_eq text t

module _ {J B : Type 0} where
  -- `bus.deliver`
  unfoldable pub deliver : Sent → Exec J B (Unit {0})
  unfolding perhaps
  deliver s = perhaps >> modify (λ b. record b { sent = b.sent ++ s ∷ [] })

  unfoldable pub send_reply : Text → Option String → Exec J B (Unit {0})
  unfolding deliver
  send_reply text approval_turn_id = deliver (outbound text approval_turn_id)

  unfoldable pub emit_event : EventKind → Exec J B (Unit {0})
  unfolding deliver attempt
  emit_event kind = attempt (deliver (broadcast kind))

  unfoldable pub push_face : Text → Exec J B (Unit {0})
  unfolding deliver
  push_face token b =
      deliver (snapshot face (suc b.seq) token)
        (record b { last_face = some token; seq = suc b.seq })

  unfoldable pub hold : ℕ → Body J B → Body J B
  hold dwell b = if ltb 0 dwell then record b { reaction_hold_until = b.monotonic + dwell } else b

  unfoldable pub show_caption : Bool → Text → Exec J B (Unit {0})
  unfolding deliver attempt
  show_caption true text b = (ok tt, b)
  show_caption false text b =
      attempt (deliver (snapshot caption (suc b.seq) text))
        (record b { last_caption = some text; seq = suc b.seq })

  unfoldable pub push_caption : Text → ℕ → Exec J B (Unit {0})
  unfolding hold show_caption is_shown
  push_caption text dwell b = show_caption (is_shown b.last_caption text) text (hold dwell b)

  unfoldable pub record_as : Option String → Option Text → Text → Exec J B (Unit {0})
  unfolding perhaps attempt
  record_as turn_id none pet_text = done tt
  record_as turn_id (some prompt) pet_text = attempt (
      perhaps
      >> modify (λ b. record b { history = record_turn turn_id prompt pet_text b.now b.history }))

  -- `_record_turn`, of the turn that is stashed
  unfoldable pub record_current : Control → Text → Exec J B (Unit {0})
  unfolding record_as
  record_current c pet_text = record_as c.current_turn_id c.current_prompt pet_text

  unfoldable pub degrade : Control → Exec J B (Unit {0})
  unfolding send_reply push_face push_caption record_current
  degrade c = do
    send_reply degrade_text none
    push_face face_degraded
    push_caption (caption_for degrade_text) reaction_dwell
    record_current c degrade_text

  unfoldable pub mood_of : Body J B → Mood
  mood_of b = record {
    valence = b.state.state.valence;
    arousal = b.state.state.arousal;
    energy = b.state.state.energy;
  }

  unfoldable pub show_mood : Text → Exec J B (Unit {0})
  unfolding push_face push_caption is_shown
  show_mood token b =
      ((if is_shown b.last_face token then done tt else push_face token) >> push_caption token 0) b

  unfoldable pub maybe_push_mood_face : Control → Exec J B (Unit {0})
  unfolding show_mood mood_of
  maybe_push_mood_face c b =
      if fence_is_idle c.fence && is_idle c.arbiter
      then (if ltb b.monotonic b.reaction_hold_until
          then (ok tt, b)
          else show_mood (codes (select_face b.faces (mood_of b))) b)
      else (ok tt, b)
