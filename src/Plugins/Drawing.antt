-- ===== src/Plugins/Drawing.antt =====
-- What the plugins draw, as the display receives it.
use shelldon.Base.{
  ℕ, zero, suc, ◌+◌, Option, none, some, Bool, true, false, String, List, [], ◌∷◌, ◌++◌, ◌≡◌, refl,
  sym, ◌∙◌, subst, any_pass, if◌then◌else◌, arith, Bool-cases, inl, inr, append-nil,
}
use shelldon.Base.Result.{Result, ok, err}
use shelldon.Display.{Region, region_eq, is_stale}
use shelldon.Display.Regions.{
  seqs, Ascends, Ascends-append, seqs-append, region_eq_refl, region_eq→eq,
}
use shelldon.Plugins.{PluginManifest, Host, new_host, draw}

-- A call of `draw`: the plugin's manifest, the region, the face, and whether the write succeeds.
pub record Request : Type 0 where
  pub manifest : PluginManifest
  pub region : Region
  pub shown : String
  pub written : Bool

-- The host after a call: a failed write leaves it as it was.
abbrev pub after : Result Host → Host → Host
after (ok h) old = h
after (err e) old = old

unfoldable pub draw_all : List Request → Host → Host
unfolding draw
draw_all [] h = h
draw_all (q ∷ qs) h = draw_all qs (after (draw q.manifest q.region q.shown q.written h) h)

-- The calls that write a frame for a region: the plugin claimed it, and the write succeeds.
abbrev pub frames : Region → List Request → ℕ
frames r [] = 0
frames r (q ∷ qs) =
    (if region_eq q.region r
      then if any_pass (λ c. region_eq c q.region) q.manifest.regions
        then if q.written then 1 else 0
        else 0
      else 0)
    + frames r qs

abbrev pub counted : ℕ → Option ℕ
counted zero = none
counted (suc n) = some (suc n)

-- The host after a frame.
abbrev sent : Region → String → Host → Host
sent r shown h = record h {
  seqs = λ q. if region_eq r q then h.seqs r + 1 else h.seqs q;
  drawn = h.drawn ++ record { region = r; seq = h.seqs r + 1; shown = shown } ∷ [];
}

after-draw :
    (q : Request) (h : Host)
    → after (draw q.manifest q.region q.shown q.written h) h ≡ (
        if any_pass (λ c. region_eq c q.region) q.manifest.regions
        then if q.written then sent q.region q.shown h else h
        else h)
unfolding draw
after-draw q h = elim (Bool-cases (any_pass (λ c. region_eq c q.region) q.manifest.regions)) [
  | inl e ↦ rw e (elim (Bool-cases q.written) [ inl w ↦ rw w refl | inr w ↦ rw w refl ])
  | inr e ↦ rw e refl
]

abbrev Good : Region → Host → Type 0
Good r h = Ascends none (seqs r h.drawn) (counted (h.seqs r))

fresh_next : (n : ℕ) → is_stale (counted n) (n + 1) ≡ false
unfolding is_stale
fresh_next zero = refl
fresh_next (suc n) = ground arith

add_one : (n : ℕ) → n + 1 ≡ suc n
add_one n = omega arith

counted_next : (n : ℕ) → some (n + 1) ≡ counted (n + 1)
counted_next n = rw (add_one n) refl

sent_here : (q : Region) (shown : String) (h : Host) → Good q h → Good q (sent q shown h)
sent_here q shown h g =
    rw
      (
        seqs-append q h.drawn (record { region = q; seq = h.seqs q + 1; shown = shown } ∷ []),
        region_eq_refl q,
      )
      (Ascends-append none (seqs q h.drawn) ((h.seqs q + 1) ∷ []) (counted (h.seqs q))
        (counted (h.seqs q + 1)) g (fresh_next (h.seqs q), counted_next (h.seqs q)))

sent_there :
    (r q : Region) (shown : String) (h : Host)
    → region_eq q r ≡ false
    → Good r h
    → Good r (sent q shown h)
sent_there r q shown h n g =
    rw (seqs-append r h.drawn (record { region = q; seq = h.seqs q + 1; shown = shown } ∷ []), n)
      (rw (append-nil (seqs r h.drawn)) g)

sent-Good : (r q : Region) (shown : String) (h : Host) → Good r h → Good r (sent q shown h)
sent-Good r q shown h g = elim (Bool-cases (region_eq q r)) [
  | inl e ↦
      subst (λ p. Good p (sent q shown h)) (region_eq→eq q r e)
        (sent_here q shown h (subst (λ p. Good p h) (sym (region_eq→eq q r e)) g))
  | inr n ↦ sent_there r q shown h n g
]

sent_count :
    (r q : Region) (shown : String) (h : Host)
    → (sent q shown h).seqs r ≡ (if region_eq q r then 1 else 0) + h.seqs r
sent_count r q shown h = elim (Bool-cases (region_eq q r)) [
  | inl e ↦ rw (e, sym (region_eq→eq q r e)) (omega arith)
  | inr n ↦ rw n (omega arith)
]

none_added : (c : Bool) (n : ℕ) → n ≡ ((if c then 0 else 0) + 0) + n
none_added true n = omega arith
none_added false n = omega arith

-- One call adds to a region's number exactly when it writes a frame for it.
called :
    (r : Region) (q : Request) (h : Host)
    → Good r h
    → let next = after (draw q.manifest q.region q.shown q.written h) h in
      Good r next × (next.seqs r ≡ frames r (q ∷ []) + h.seqs r)
called r q h g =
    rw (after-draw q h) (choose (any_pass (λ c. region_eq c q.region) q.manifest.regions) q.written)
  where
    choose :
        (b w : Bool)
        → Good r (if b then if w then sent q.region q.shown h else h else h)
          × ((if b then if w then sent q.region q.shown h else h else h).seqs r
              ≡ ((if region_eq q.region r then if b then if w then 1 else 0 else 0 else 0) + 0)
                + h.seqs r)
    choose true true =
        (sent-Good r q.region q.shown h g, omega (arith, sent_count r q.region q.shown h))
    choose true false = (g, none_added (region_eq q.region r) (h.seqs r))
    choose false w = (g, none_added (region_eq q.region r) (h.seqs r))

all_called :
    (r : Region) (qs : List Request) (h : Host)
    → Good r h
    → Good r (draw_all qs h) × ((draw_all qs h).seqs r ≡ frames r qs + h.seqs r)
unfolding draw_all
all_called r [] h g = (g, omega arith)
all_called r (q ∷ qs) h g =
    let here = called r q h g in
    let rest = all_called r qs (after (draw q.manifest q.region q.shown q.written h) h) here.0 in
    (rest.0, omega (arith, rest.1, here.1))

-- Of draws that each end before the next one begins, whatever the plugins draw and whichever writes
-- fail: the frames that reach the bus carry strictly increasing numbers in each region, so the display
-- takes every one; the last number is the count of the calls by a plugin that claimed the region and
-- whose write succeeded: a failed write skips no number, and a call without the claim leaves no
-- trace.
pub draw_all-Ascends :
    (qs : List Request) (r : Region)
    → Ascends none (seqs r (draw_all qs new_host).drawn) (counted (frames r qs))
unfolding new_host
draw_all-Ascends qs r =
    let run = all_called r qs new_host refl in
    subst (λ n. Ascends none (seqs r (draw_all qs new_host).drawn) (counted n))
      (run.1 ∙ omega arith) run.0
