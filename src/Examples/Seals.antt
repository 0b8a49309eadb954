-- ===== src/Examples/Seals.antt =====
-- Keys, names, listings, bodies and counters.
use vaultr.Prelude.{
  ℕ, ◌≡◌, ◌≢◌, ◌≤◌, ◌↔◌, refl, inr, true, arith, Option, some, List, [], ◌∷◌, All, length,
}
use vaultr.Prelude.Map
use vaultr.Text.{Text, chars, text_eq, is_whitespace}
use vaultr.Broker.Result.{ok}
use vaultr.Broker.Seal.{default_policy, validate}
use vaultr.Broker.Seal.Layout.{IsSealKey, validate_iff}
use vaultr.Broker.Tenant.{Tenant, tenant_key}
use vaultr.Broker.Tenant.Label.{IsLabel, is_small_label_char}
use vaultr.Broker.Store.{Object, list_args, parse_listing, size_of}
use vaultr.Broker.Store.Rows.{IsPlain, print_rows, parse_listing-print_rows}
use vaultr.Broker.Store.Lookup.{FirstWith, size_of-exact}
use vaultr.Broker.Metrics.{uploaded, failed}
use vaultr.Broker.Metrics.Tenants.{or_default}
use vaultr.Broker.Metrics.Tally.{History, contacts, records, after, Tallies, after-Tallies}
use vaultr.Broker.Http.{Frame, Disk, chunk, trailers, broken, spool_body, spool_frames}
use vaultr.Broker.Http.Spool.{payload, InMemory, spool_body-payload, spool_body-total}
use vaultr.Broker.Spool.{Directory}
use vaultr.Examples.Aws.{Shelf, shelf_aws, run_aws, shown, printable}

abbrev pub day_key : Text
day_key = chars "sessions/2026/08/06/s-1/turns.jsonl.zst"

validate_iff_example : (validate default_policy day_key ≡ ok tt) ↔ IsSealKey default_policy day_key
validate_iff_example = validate_iff default_policy day_key

abbrev pub athens : Tenant
athens = record { name = chars "athens-1" }

pub athens-IsLabel : IsLabel athens
unfolding is_small_label_char
athens-IsLabel = record { nonempty = refl; small = refl }

abbrev pub day_object : Object
day_object = record { key = day_key; size = 12 }

pub day_object-IsPlain : IsPlain day_object
unfolding is_whitespace
day_object-IsPlain = record {
  first = b's';
  rest = chars "essions/2026/08/06/s-1/turns.jsonl.zst";
  nonempty = refl;
  no_space = refl;
  fits = omega arith;
}

parse_listing-print_rows_example :
    parse_listing (print_rows (day_object ∷ day_object ∷ [])) ≡ day_object ∷ day_object ∷ []
parse_listing-print_rows_example =
    parse_listing-print_rows (day_object ∷ day_object ∷ [])
      (day_object-IsPlain, (day_object-IsPlain, tt))

abbrev small_history : History
small_history =
    (athens, records uploaded 12 3) ∷ (athens, contacts 2) ∷ (athens, records failed 0 1) ∷ []

after-Tallies_example :
    Tallies athens small_history (or_default (Map.get athens (after small_history).tenants))
after-Tallies_example = after-Tallies small_history athens

abbrev pub good_disk : Disk
good_disk = record { create = true; write_all = λ _. true; flush = true }

abbrev pub two_frames : List Frame
two_frames = chunk (chars "ab") ∷ trailers ∷ chunk (chars "c") ∷ []

pub two_frames-InMemory : All InMemory two_frames
two_frames-InMemory = (omega arith, (tt, (omega arith, tt)))

chunk-ne-broken : (c : List ℕ) → chunk c ≢ broken
chunk-ne-broken c e = cc

trailers-ne-broken : trailers ≢ broken
trailers-ne-broken e = cc

spool_two_frames : (spool_body good_disk 10 two_frames).0 ≡ ok 3
unfolding spool_body spool_frames
spool_two_frames = refl

spool_body-payload_example :
    ((spool_body good_disk 10 two_frames).1 ≡ payload two_frames)
    × (3 ≡ length (payload two_frames))
    × (3 ≤ 10)
spool_body-payload_example =
    spool_body-payload good_disk 10 two_frames 3 (omega arith) two_frames-InMemory spool_two_frames

spool_body-total_example : (spool_body good_disk 10 two_frames).0 ≡ ok (length (payload two_frames))
spool_body-total_example =
    spool_body-total good_disk 10 two_frames (omega arith) refl refl (λ _. refl)
      (chunk-ne-broken (chars "ab"), (trailers-ne-broken, (chunk-ne-broken (chars "c"), tt)))
      (omega arith)

abbrev pub day_shelf : Shelf
day_shelf = (day_key, chars "twelve bytes") ∷ []

day_listed :
    (shelf_aws.exec day_shelf (list_args (chars "seals") day_key) []).0
    ≡ some (record { success = true; stdout = some (print_rows (day_object ∷ [])) })
unfolding run_aws shown printable text_eq is_whitespace Map.get
day_listed = refl

size_of-exact_example :
    (n : Option ℕ) × ((size_of shelf_aws (chars "seals") day_key day_shelf).0 ≡ ok n)
    × FirstWith day_key (day_object ∷ []) n
size_of-exact_example =
    size_of-exact shelf_aws (chars "seals") day_key day_shelf _ (day_object ∷ []) day_listed
      (inr refl) (day_object-IsPlain, tt)

abbrev spool_directory : Directory
spool_directory = record {
  entries = some (some (chars "seal-1.upload") ∷ some (chars "notes.txt") ∷ []);
  is_file = λ _. some true;
  remove_file = λ _. true;
}
