-- ===== src/Plugins/Claims.antt =====
-- No two writers for one region or resource, and each event to its subscribers.
use shelldon.Base.{
  ℕ, ◌+◌, ◌≤◌, Option, none, some, Bool, true, false, String, List, [], ◌∷◌, ◌++◌, ◌≡◌, refl, sym,
  ap, ◌∙◌, if◌then◌else◌, arith, ◌==◌, append-nil, append_assoc,
}
use shelldon.Base.Result.{Result, ok, err, ◌>>=◌}
use shelldon.Base.Table.{Table, find}
use shelldon.Display.{Region, face}
use shelldon.Plugins.{
  EventKind, place, Plugin, LoadedPlugins, claim_regions, claim_resources, subscribe, validate_rest,
  validate_claims, deliver, fan_out,
}
use shelldon.Plugins.Counting.{
  region_count, resource_count, held_count, ok_injective, claim_regions_ok, claim_resources_ok,
}

held_le : (o : Option String) → held_count o ≤ 1
held_le none = omega arith
held_le (some n) = omega arith

module _ {S : Type 0} where
  abbrev pub regions_claimed : Region → List (Plugin S) → ℕ
  regions_claimed r [] = 0
  regions_claimed r (p ∷ ps) = region_count r p.manifest.regions + regions_claimed r ps

  abbrev pub resources_claimed : String → List (Plugin S) → ℕ
  resources_claimed k [] = 0
  resources_claimed k (p ∷ ps) = resource_count k p.manifest.resources + resources_claimed k ps

  -- A plugin stands in its kind's list as often as it names the kind.
  abbrev pub copies : EventKind → Plugin S → List EventKind → List (Plugin S)
  copies e p [] = []
  copies e p (k ∷ ks) = if place e == place k then p ∷ copies e p ks else copies e p ks

  abbrev pub subscribers : EventKind → List (Plugin S) → List (Plugin S)
  subscribers e [] = []
  subscribers e (p ∷ ps) = copies e p p.manifest.subscribes ++ subscribers e ps

  subscribe_adds :
      (e : EventKind) (p : Plugin S) (ks : List EventKind) (subs : ℕ → List (Plugin S))
      → subscribe p ks subs (place e) ≡ subs (place e) ++ copies e p ks
  unfolding subscribe
  subscribe_adds e p [] subs = sym (append-nil (subs (place e)))
  subscribe_adds e p (k ∷ ks) subs =
      subscribe_adds e p ks (λ n. if n == place k then subs n ++ p ∷ [] else subs n)
      ∙ added (place e == place k)
    where
      added :
          (b : Bool)
          → (if b then subs (place e) ++ p ∷ [] else subs (place e)) ++ copies e p ks
            ≡ subs (place e) ++ (if b then p ∷ copies e p ks else copies e p ks)
      added true = append_assoc (subs (place e)) (p ∷ []) (copies e p ks)
      added false = refl

  -- What the loop over the plugins has added to the maps.
  record Loaded (ps : List (Plugin S)) (l after : LoadedPlugins S) : Type 0 where
    no_face : regions_claimed face ps ≡ 0
    in_regions :
        (r : Region)
        → held_count (after.regions r) ≡ regions_claimed r ps + held_count (l.regions r)
    in_resources :
        (k : String)
        → held_count (find k after.resources)
          ≡ resources_claimed k ps + held_count (find k l.resources)
    in_subscriptions :
        (e : EventKind)
        → after.subscriptions (place e) ≡ l.subscriptions (place e) ++ subscribers e ps

  abbrev joined :
      Plugin S → LoadedPlugins S → (Region → Option String) → Table String → LoadedPlugins S
  joined p l rs ts = record {
    plugins = l.plugins;
    regions = rs;
    resources = ts;
    subscriptions = subscribe p p.manifest.subscribes l.subscriptions;
  }

  validate_step :
      (p : Plugin S) (ps : List (Plugin S)) (l after : LoadedPlugins S)
      → validate_rest (p ∷ ps) l ≡ ok after
      → (rs : Region → Option String) × ((ts : Table String) × ((claim_regions p.manifest.name
                p.manifest.regions l.regions
              ≡ ok rs)
            × ((claim_resources p.manifest.name p.manifest.resources l.resources ≡ ok ts)
                × (validate_rest ps (joined p l rs ts) ≡ ok after))))
  unfolding validate_rest
  validate_step p ps l after e =
      split (claim_regions p.manifest.name p.manifest.regions l.regions)
        (claim_resources p.manifest.name p.manifest.resources l.resources) refl refl e
    where
      split :
          (a : Result (Region → Option String)) (b : Result (Table String))
          → claim_regions p.manifest.name p.manifest.regions l.regions ≡ a
          → claim_resources p.manifest.name p.manifest.resources l.resources ≡ b
          → (a >>= λ rs. b >>= λ ts. validate_rest ps (joined p l rs ts)) ≡ ok after
          → (rs : Region → Option String) × ((ts : Table String) × ((claim_regions p.manifest.name
                    p.manifest.regions l.regions
                  ≡ ok rs)
                × ((claim_resources p.manifest.name p.manifest.resources l.resources ≡ ok ts)
                    × (validate_rest ps (joined p l rs ts) ≡ ok after))))
      split (err x) b h k e = cc
      split (ok rs) (err x) h k e = cc
      split (ok rs) (ok ts) h k e = (rs, (ts, (h, (k, e))))

  validate_rest-Loaded :
      (ps : List (Plugin S)) (l after : LoadedPlugins S)
      → validate_rest ps l ≡ ok after
      → Loaded ps l after
  unfolding validate_rest
  validate_rest-Loaded [] l after e =
      let same = ok_injective l after e in
      record {
        no_face = refl;
        in_regions = λ r. omega (arith, ap (λ m. held_count (m.regions r)) same);
        in_resources = λ k. omega (arith, ap (λ m. held_count (find k m.resources)) same);
        in_subscriptions = λ x.
            ap (λ m. m.subscriptions (place x)) (sym same)
            ∙ sym (append-nil (l.subscriptions (place x)));
      }
  validate_rest-Loaded (p ∷ ps) l after e =
      let (rs, (ts, (h, (k, next)))) = validate_step p ps l after e in
      let rest = validate_rest-Loaded ps (joined p l rs ts) after next in
      let here = claim_regions_ok p.manifest.name p.manifest.regions l.regions rs h in
      record {
        no_face = omega (arith, here.0, rest.no_face);
        in_regions = λ r. omega (arith, here.1 r, rest.in_regions r);
        in_resources = λ j. omega (
          arith,
          claim_resources_ok p.manifest.name p.manifest.resources l.resources ts k j,
          rest.in_resources j,
        );
        in_subscriptions = λ x.
            rest.in_subscriptions x
            ∙ ap (λ ys. ys ++ subscribers x ps)
                (subscribe_adds x p p.manifest.subscribes l.subscriptions)
            ∙ append_assoc (l.subscriptions (place x)) (copies x p p.manifest.subscribes)
                (subscribers x ps);
      }

  -- A set of plugins that loads has no claim on core's face region, and no region or resource is
  -- claimed twice, by two plugins or by one; every event goes to exactly its subscribers, in the order
  -- of the plugins.
  pub validate_claims_ok :
      (ps : List (Plugin S)) (l : LoadedPlugins S)
      → validate_claims ps ≡ ok l
      → (regions_claimed face ps ≡ 0)
        × (((r : Region) → regions_claimed r ps ≤ 1)
            × (((k : String) → resources_claimed k ps ≤ 1)
                × ((e : EventKind) (s : S) → fan_out e l s ≡ deliver e (subscribers e ps) s)))
  unfolding validate_claims fan_out
  validate_claims_ok ps l h =
      let v =
        validate_rest-Loaded ps
          (record { plugins = ps; regions = λ r. none; resources = []; subscriptions = λ k. [] }) l
          h in
      (
        v.no_face,
        (
          (λ r. omega (arith, held_le (l.regions r), v.in_regions r)),
          (
            (λ k. omega (arith, held_le (find k l.resources), v.in_resources k)),
            (λ e s. ap (λ qs. deliver e qs s) (v.in_subscriptions e)),
          ),
        ),
      )
