-- ===== src/Plant/Sweep/Claims.antt =====
-- What is known of a batch that is claimed.
use vaultr.Prelude.{
  ℕ, zero, suc, ◌+◌, ◌≡◌, ◌∙◌, refl, ap, subst, Bool, true, false, inl, inr, Option, none, some,
  List, [], ◌∷◌, All, Any, map, take, leb, is_empty, Bool-cases, if◌then◌else◌, arith,
}
use mathlib.Core.Option.{none-ne-some, some-injective}
use vaultr.Text.{Text}
use vaultr.Json.{and_then, and_then-some}
use vaultr.Recon.Delta.{is_one_of}
use vaultr.Recon.Output.{Parse}
use vaultr.Plant.Sweep.{SessionGeneration, learned_current}
use vaultr.Plant.Sweep.Batches.{
  InflightLease, LeaseFile, lease, read_inflight, inflight_sessions, both_not, is_eligible,
  Candidates, push_candidate, all_candidates, eligible_candidates, session_of, learned_then,
  all_learned, Walk, saturated, publish_found, take_if, eligible_and_claim,
}

both_not-true :
    (o rest : Option Bool) → both_not o rest ≡ some true → (o ≡ some false) × (rest ≡ some true)
both_not-true none rest e = absurd (none-ne-some true e)
both_not-true (some true) rest e = ground (arith, some-injective false true e)
both_not-true (some false) rest e = (refl, e)

-- A session of the walk that is neither a job's, nor learned, nor in flight.
pub record IsFree (jobs : List Text) (w : Walk) (inflight : List Text) (g : SessionGeneration)
    : Type 0 where
  pub no_job : is_one_of jobs g.sid ≡ false
  pub unlearned : learned_current w.processed g ≡ some false
  pub not_inflight : is_one_of inflight g.sid ≡ false

-- A generation with this id is free.
abbrev pub HasFree : List Text → Walk → List Text → List SessionGeneration → Text → Type 0
HasFree jobs w inflight generations sid =
    Any (λ g. (g.sid ≡ sid) × IsFree jobs w inflight g) generations

is_eligible-IsFree :
    (from_str : Parse) (jobs : List Text) (w : Walk) (inflight : List Text) (idle : ℕ)
    (g : SessionGeneration)
    → is_eligible from_str jobs w.processed inflight idle g ≡ some true
    → IsFree jobs w inflight g
unfolding is_eligible
is_eligible-IsFree from_str jobs w inflight idle g e =
    let (a, e1) = both_not-true _ _ e in
    let (b, e2) = both_not-true _ _ e1 in
    let (c, e3) = both_not-true _ _ e2 in
    record { no_job = some-injective _ _ a; unlearned = b; not_inflight = some-injective _ _ c }

module _ (from_str : Parse) (jobs : List Text) (w : Walk) (inflight : List Text) (idle : ℕ) where
  -- Each candidate of these generations is free.
  abbrev AllFree : List SessionGeneration → Candidates → Type 0
  AllFree generations found = All (λ c. HasFree jobs w inflight generations c.0) found

  later-AllFree :
      (g : SessionGeneration) (generations : List SessionGeneration) (found : Candidates)
      → AllFree generations found
      → AllFree (g ∷ generations) found
  later-AllFree g generations [] a = tt
  later-AllFree g generations (c ∷ cs) a = (inr a.0, later-AllFree g generations cs a.1)

  push_candidate-AllFree :
      (g : SessionGeneration) (generations : List SessionGeneration) (b : Bool) (d : Option Text)
      (found : Candidates)
      → (b ≡ true → IsFree jobs w inflight g)
      → AllFree (g ∷ generations) found
      → AllFree (g ∷ generations) (push_candidate g b d found)
  push_candidate-AllFree g generations true (some d) found f a = (inl (refl, f refl), a)
  push_candidate-AllFree g generations true none found f a = a
  push_candidate-AllFree g generations false d found f a = a

  all_candidates-AllFree :
      (generations : List SessionGeneration) (found : Candidates)
      → all_candidates (is_eligible from_str jobs w.processed inflight idle) generations
        ≡ some found
      → AllFree generations found
  unfolding all_candidates
  all_candidates-AllFree [] found e = subst (AllFree []) (some-injective [] found e) tt
  all_candidates-AllFree (g ∷ generations) found e =
      let (b, p, more) =
        and_then-some _ (is_eligible from_str jobs w.processed inflight idle g) found e in
      let (rest, q, last) =
        and_then-some _
          (all_candidates (is_eligible from_str jobs w.processed inflight idle) generations) found
          more in
      subst (AllFree (g ∷ generations)) (some-injective _ found last) (
        push_candidate-AllFree g generations b g.file.directory rest
          (λ t. is_eligible-IsFree from_str jobs w inflight idle g (p ∙ ap some t))
          (later-AllFree g generations rest (all_candidates-AllFree generations rest q)))

  take-AllFree :
      (n : ℕ) (found : Candidates)
      → AllFree w.generations found
      → AllFree w.generations (take n found)
  take-AllFree zero found a = tt
  take-AllFree (suc n) [] a = tt
  take-AllFree (suc n) (c ∷ cs) a = (a.0, take-AllFree n cs a.1)

  candidates-AllFree :
      (max : ℕ) (batch : Candidates)
      → eligible_candidates from_str jobs w.processed inflight idle max w.generations ≡ some batch
      → AllFree w.generations batch
  unfolding eligible_candidates
  candidates-AllFree max batch e =
      let (found, p, last) =
        and_then-some _
          (all_candidates (is_eligible from_str jobs w.processed inflight idle) w.generations) batch
          e in
      subst (AllFree w.generations) (some-injective _ batch last)
        (take-AllFree max found (all_candidates-AllFree w.generations found p))

-- A session that the walk has as learned.
abbrev pub IsLearned : Walk → Text → Type 0
IsLearned w sid =
    (g : SessionGeneration) × (session_of sid w.generations ≡ some g)
    × (learned_current w.processed g ≡ some true)

learned_then-true :
    (w : Walk) (o : Option SessionGeneration) (rest : Option Bool)
    → learned_then w.processed o rest ≡ some true
    → ((g : SessionGeneration) × (o ≡ some g) × (learned_current w.processed g ≡ some true))
      × (rest ≡ some true)
learned_then-true w none rest e = ground (arith, some-injective false true e)
learned_then-true w (some g) rest e = of_learned (learned_current w.processed g) refl e
  where
    of_learned :
        (o : Option Bool)
        → learned_current w.processed g ≡ o
        → and_then (λ learned. if learned then rest else some false) o ≡ some true
        → ((h : SessionGeneration) × (some g ≡ some h)
            × (learned_current w.processed h ≡ some true))
          × (rest ≡ some true)
    of_learned none l f = absurd (none-ne-some true f)
    of_learned (some false) l f = ground (arith, some-injective false true f)
    of_learned (some true) l f = ((g, refl, l), f)

all_learned-IsLearned :
    (w : Walk) (sids : List Text)
    → all_learned w.processed w.generations sids ≡ some true
    → All (IsLearned w) sids
unfolding all_learned
all_learned-IsLearned w [] e = tt
all_learned-IsLearned w (sid ∷ sids) e =
    let (a, b) = learned_then-true w (session_of sid w.generations) _ e in
    (a, all_learned-IsLearned w sids b)

no_batch : (p : Text) (ps : List Text) → some [] ≡ some (p ∷ ps) → ⊥
no_batch p ps e = ground (arith, some-injective [] (p ∷ ps) e)

module _ (from_str : Parse) (jobs : List Text) (first second : Walk) (idle max duration : ℕ)
    (published : Bool) where
  -- The file has a lease of sessions that are free.
  abbrev pub LeasesFree : List Text → LeaseFile → Type 0
  LeasesFree inflight file =
      (l : InflightLease) × (file ≡ lease l)
      × All (HasFree jobs second inflight second.generations) l.sids

  map-AllFree :
      (inflight : List Text) (batch : Candidates)
      → AllFree from_str jobs second inflight idle second.generations batch
      → All (HasFree jobs second inflight second.generations) (map (λ c. c.0) batch)
  map-AllFree inflight [] a = tt
  map-AllFree inflight (c ∷ cs) a = (a.0, map-AllFree inflight cs a.1)

  publish-LeasesFree :
      (later : ℕ) (file : LeaseFile) (inflight : List Text) (o : Option Candidates) (p : Text)
      (ps : List Text)
      → ((batch : Candidates)
          → o ≡ some batch
          → AllFree from_str jobs second inflight idle second.generations batch)
      → (publish_found from_str jobs first second idle max duration published later file o).0
        ≡ some (p ∷ ps)
      → LeasesFree inflight
          (publish_found from_str jobs first second idle max duration published later file o).1
  publish-LeasesFree later file inflight none p ps free e = absurd (none-ne-some (p ∷ ps) e)
  publish-LeasesFree later file inflight (some []) p ps free e = absurd (no_batch p ps e)
  publish-LeasesFree later file inflight (some (c ∷ cs)) p ps free e = elim (Bool-cases published) [
    | inr lost ↦ absurd (none-ne-some (p ∷ ps) (simp lost at e))
    | inl kept ↦ simp kept (
      record {
        sids = map (λ k. k.0) (c ∷ cs);
        expires_at = saturated (saturated (later + duration) + 300);
      },
      refl,
      map-AllFree inflight (c ∷ cs) (free (c ∷ cs) refl),
    )
  ]

  take_if-LeasesFree :
      (now later : ℕ) (file : LeaseFile) (o : Option Bool) (p : Text) (ps : List Text)
      → (take_if from_str jobs first second idle max duration published now later file o).0
        ≡ some (p ∷ ps)
      → (o ≡ some true)
        × LeasesFree
            (inflight_sessions now file)
            (take_if from_str jobs first second idle max duration published now later file o).1
  take_if-LeasesFree now later file none p ps e = absurd (none-ne-some (p ∷ ps) e)
  take_if-LeasesFree now later file (some false) p ps e = absurd (no_batch p ps e)
  take_if-LeasesFree now later file (some true) p ps e = (
    refl,
    publish-LeasesFree later file (inflight_sessions now file)
        (eligible_candidates from_str jobs second.processed (inflight_sessions now file) idle max
          second.generations)
        p ps
        (λ batch q.
          candidates-AllFree from_str jobs second (inflight_sessions now file) idle max batch q)
        e,
  )

  -- When a batch is handed out over a lease that is active, each session of that lease is learned, and
  -- the new lease has sessions that are not learned, that are no job's, and that no active lease has.
  pub eligible_and_claim-LeasesFree :
      (at now later : ℕ) (l : InflightLease) (p : Text) (ps : List Text)
      → leb l.expires_at at ≡ false
      → (eligible_and_claim from_str jobs first second idle max duration published at now later
          (lease l)).0
        ≡ some (p ∷ ps)
      → All (IsLearned first) l.sids
        × LeasesFree
            (inflight_sessions now (lease l))
            (eligible_and_claim from_str jobs first second idle max duration published at now later
              (lease l)).1
  unfolding eligible_and_claim read_inflight
  eligible_and_claim-LeasesFree at now later l p ps active e = elim (Bool-cases (is_empty l.sids)) [
    | inl none_held ↦ absurd (none-ne-some (p ∷ ps) (simp (active, none_held) at e))
    | inr held ↦
        simp (active, held)
          (let (a, b) =
              take_if-LeasesFree now later (lease l)
                (all_learned first.processed first.generations l.sids) p ps
                (simp (active, held) at e) in
            (all_learned-IsLearned first l.sids a, b))
  ]
