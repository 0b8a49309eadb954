-- ===== src/Plant/Sweep/Batches.antt =====
-- The candidates of a learner and the lease of a batch: read_inflight, eligible_candidates and
-- eligible_and_claim of crates/plant/src/sweep.rs.
use vaultr.Prelude.{
  ℕ, ◌+◌, ltb, leb, Bool, true, false, not, Option, none, some, List, [], ◌∷◌, find, is_empty, map,
  take, if◌then◌else◌,
}
use mathlib.Core.List.{reverse}
use vaultr.Text.{Text, text_eq, text_key, u64_limit}
use vaultr.Json.{and_then}
use vaultr.Recon.Delta.{is_one_of}
use vaultr.Recon.Output.{Parse}
use vaultr.Plant.Sweep.{
  SessionGeneration, learned_current, idle_for, substantive, is_standalone_quota_probe,
}

pub record InflightLease : Type 0 where
  pub sids : List Text
  pub expires_at : ℕ

pub data LeaseFile : Type 0 where
  no_lease broken_lease : LeaseFile
  lease : InflightLease → LeaseFile

-- The lease that is active at a time.
unfoldable pub read_inflight : ℕ → LeaseFile → Option (Option InflightLease)
read_inflight now no_lease = some none
read_inflight now broken_lease = none
read_inflight now (lease l) =
    if leb l.expires_at now then some none else if is_empty l.sids then none else some (some l)

abbrev sids_of : Option (Option InflightLease) → List Text
sids_of (some (some l)) = l.sids
sids_of _ = []

unfoldable pub inflight_sessions : ℕ → LeaseFile → List Text
inflight_sessions now file = sids_of (read_inflight now file)

abbrev pub both_not : Option Bool → Option Bool → Option Bool
both_not test rest = and_then (λ b. if b then some false else rest) test

-- None of the reasons to leave a session out.
unfoldable pub is_eligible :
    Parse → List Text → List (Text × ℕ) → List Text → ℕ → SessionGeneration → Option Bool
is_eligible from_str jobs processed inflight idle g = both_not (some (is_one_of jobs g.sid)) (
    both_not (learned_current processed g) (
      both_not (some (is_one_of inflight g.sid)) (
        both_not (and_then (λ b. some (not b)) (idle_for idle g))
          (both_not (is_standalone_quota_probe from_str g) (substantive g)))))

abbrev pub Candidates : Type 0
Candidates = List (Text × Text)

abbrev pub push_candidate : SessionGeneration → Bool → Option Text → Candidates → Candidates
push_candidate g true (some directory) rest = (g.sid, directory) ∷ rest
push_candidate g _ _ rest = rest

unfoldable pub all_candidates :
    (SessionGeneration → Option Bool) → List SessionGeneration → Option Candidates
all_candidates eligible [] = some []
all_candidates eligible (g ∷ gs) =
    and_then
      (λ b.
        and_then (λ rest. some (push_candidate g b g.file.directory rest))
          (all_candidates eligible gs))
      (eligible g)

unfoldable pub eligible_candidates :
    Parse
    → List Text
    → List (Text × ℕ)
    → List Text
    → ℕ
    → ℕ
    → List SessionGeneration
    → Option Candidates
eligible_candidates from_str jobs processed inflight idle max generations =
    and_then (λ found. some (take max found))
      (all_candidates (is_eligible from_str jobs processed inflight idle) generations)

-- The last generation of a session.
abbrev pub session_of : Text → List SessionGeneration → Option SessionGeneration
session_of sid generations = find (λ g. text_eq g.sid sid) (reverse generations)

-- Whether each session of a lease is there and has been learned.
abbrev pub learned_then : List (Text × ℕ) → Option SessionGeneration → Option Bool → Option Bool
learned_then processed none rest = some false
learned_then processed (some g) rest =
    and_then (λ learned. if learned then rest else some false) (learned_current processed g)

unfoldable pub all_learned : List (Text × ℕ) → List SessionGeneration → List Text → Option Bool
all_learned processed generations [] = some true
all_learned processed generations (sid ∷ sids) =
    learned_then processed (session_of sid generations) (all_learned processed generations sids)

-- What a walk of the vault finds: the last pass of each session, and the generations.
pub record Walk : Type 0 where
  pub processed : List (Text × ℕ)
  pub generations : List SessionGeneration

abbrev pub saturated : ℕ → ℕ
saturated n = if ltb n u64_limit then n else 18446744073709551615

module _ (from_str : Parse) (jobs : List Text) (first second : Walk) (idle max duration : ℕ)
    (published : Bool) where
  abbrev pub lease_of : ℕ → Candidates → LeaseFile
  lease_of now batch = lease (record {
    sids = map (λ c. c.0) batch;
    expires_at = saturated (saturated (now + duration) + 300);
  })

  -- A batch that is not empty is leased before it is handed out.
  abbrev pub publish : ℕ → LeaseFile → Candidates → Option (List Text) × LeaseFile
  publish now file [] = (some [], file)
  publish now file (c ∷ cs) =
      if published then (some (map (λ d. d.1) (c ∷ cs)), lease_of now (c ∷ cs)) else (none, file)

  abbrev pub publish_found : ℕ → LeaseFile → Option Candidates → Option (List Text) × LeaseFile
  publish_found now file none = (none, file)
  publish_found now file (some batch) = publish now file batch

  abbrev pub take_batch : ℕ → ℕ → LeaseFile → Option (List Text) × LeaseFile
  take_batch now later file = publish_found later file (
      eligible_candidates from_str jobs second.processed (inflight_sessions now file) idle max
        second.generations)

  abbrev pub take_if : ℕ → ℕ → LeaseFile → Option Bool → Option (List Text) × LeaseFile
  take_if now later file none = (none, file)
  take_if now later file (some false) = (some [], file)
  take_if now later file (some true) = take_batch now later file

  -- With a lease that is active, only if its sessions are learned.
  abbrev pub claim_over :
      ℕ → ℕ → LeaseFile → Option (Option InflightLease) → Option (List Text) × LeaseFile
  claim_over now later file none = (none, file)
  claim_over now later file (some none) = take_batch now later file
  claim_over now later file (some (some l)) =
      take_if now later file (all_learned first.processed first.generations l.sids)

  -- The clock is read for the lease, for the sessions in flight, and for the new lease; the vault is
  -- walked for the sessions of the lease, and for the candidates.
  unfoldable pub eligible_and_claim : ℕ → ℕ → ℕ → LeaseFile → Option (List Text) × LeaseFile
  eligible_and_claim at now later file = claim_over now later file (read_inflight at file)
