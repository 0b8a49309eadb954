-- ===== src/Examples/Learning.antt =====
-- Two sessions of a vault: one that is leased and learned, and one that is free.
use vaultr.Prelude.{◌≡◌, refl, true, none, some, [], ◌∷◌, All}
use vaultr.Prelude.Map
use vaultr.Text.{Text, chars, text_eq, text_key}
use vaultr.Recon.Output.{Parse}
use vaultr.Plant.Sweep.{
  File, SessionGeneration, generation, sealed, learned_current, idle_for, substantive,
  is_standalone_quota_probe, is_quota_probe_candidate,
}
use vaultr.Plant.Sweep.Batches.{
  Walk, InflightLease, lease, eligible_and_claim, inflight_sessions, read_inflight, all_learned,
  eligible_candidates, all_candidates, is_eligible,
}
use vaultr.Plant.Sweep.Claims.{IsLearned, LeasesFree, eligible_and_claim-LeasesFree}

abbrev no_parse : Parse
no_parse _ = none

abbrev sealed_file_at : Text → File
sealed_file_at name = record {
  path = name;
  directory = some name;
  times = none;
  size = none;
  text = none;
  records = none;
  state_json = none;
}

abbrev sealed_session : Text → SessionGeneration
sealed_session sid =
    generation sid
      (record { sealed_file = some (sealed_file_at sid); detached_file = none; raw_file = none })
      sealed (sealed_file_at sid)

abbrev vault_walk : Walk
vault_walk = record {
  processed = (chars "s1", 5) ∷ [];
  generations = sealed_session (chars "s1") ∷ sealed_session (chars "s2") ∷ [];
}

abbrev first_lease : InflightLease
first_lease = record { sids = chars "s1" ∷ []; expires_at = 100 }

second_batch :
    (eligible_and_claim no_parse [] vault_walk vault_walk 60 4 900 true 50 50 50
      (lease first_lease)).0
    ≡ some (chars "s2" ∷ [])
unfolding eligible_and_claim read_inflight inflight_sessions all_learned learned_current
    eligible_candidates all_candidates is_eligible idle_for substantive is_standalone_quota_probe
    is_quota_probe_candidate Map.get text_eq
second_batch = refl

eligible_and_claim-LeasesFree_example :
    All (IsLearned vault_walk) first_lease.sids
    × LeasesFree no_parse [] vault_walk vault_walk 60 4 900 true
        (inflight_sessions 50 (lease first_lease))
        (eligible_and_claim no_parse [] vault_walk vault_walk 60 4 900 true 50 50 50
          (lease first_lease)).1
eligible_and_claim-LeasesFree_example =
    eligible_and_claim-LeasesFree no_parse [] vault_walk vault_walk 60 4 900 true 50 50 50
      first_lease (chars "s2") [] refl second_batch
