-- ===== src/Examples/Serving.antt =====
-- Requests to a broker over one bucket in memory.
use vaultr.Prelude.{◌≡◌, ◌⊎◌, refl, arith, none, some, [], ◌∷◌, length, ℕ, List, ◌≢◌}
use vaultr.Prelude.Map
use vaultr.Text.{
  Text, chars, text_eq, text_key, is_whitespace, lines, line_list, split, trim, show, rsplit_once,
  parse_u64, trim_start, trim_end, strip_cr,
}
use vaultr.Broker.Result.{ok, err, not_tailnet_address}
use vaultr.Broker.Tenant.{v4, is_loopback, is_tailnet_addr}
use vaultr.Broker.Seal.{default_policy}
use vaultr.Broker.Resolver
use vaultr.Broker.Resolver.{resolve}
use vaultr.Broker.Store.Rows.{print_rows}
use vaultr.Broker.Store.{is_row, parse_row, size_of, aws, read_output, find_key, parse_listing, put}
use vaultr.Broker.Metrics.{new}
use vaultr.Broker.Http.{
  chunk, trailers, broken, Request, error, put as put_method, gateway_subject, bearer_token,
  content_length, spool_body, spool_frames,
}
use vaultr.Broker.Http.Spool.{payload}
use vaultr.Broker.Server.{Broker, Visit, uploaded, unchanged}
use vaultr.Broker.Server.Handlers.{listing, store_seal}
use vaultr.Broker.Server.Routes.{route, open_route}
use vaultr.Broker.Server.Access.{Permit, caller, route-Permit, route-unnamed}
use vaultr.Broker.Server.Uploads.{Settled, store_seal-Settled}
use vaultr.Broker.Server.Repeats.{store_seal_twice}
use vaultr.Broker.Server.Answers.{outcome_of, store_seal-answers}
use vaultr.Broker.Server.Listing.{Event, listed, after, Answered, listing-Answered}
use vaultr.Examples.Aws.{Shelf, shelf_aws, shelf_bucket, run_aws, shown, printable}
use vaultr.Examples.Seals.{athens, day_key, day_shelf, good_disk, two_frames, two_frames-InMemory}
use vaultr.Examples.Callers.{gateway_resolver, kind_outside, home}

abbrev pub small_broker : Broker
small_broker = record {
  bucket = chars "seals";
  resolver = gateway_resolver;
  metrics = new;
  keys = default_policy;
  read_tenants = athens ∷ [];
  max_object_bytes = 10;
  listing = none;
}

abbrev pub home_visit : Visit
home_visit = record {
  peer = home;
  outside = kind_outside;
  contacted_at = 1;
  looked_at = 2;
  observed_at = 3;
  listed_at = 4;
  finished_at = 5;
}

abbrev upload_request : Request
upload_request = record {
  method = put_method;
  path = chars "/v1/seals/sessions/2026/08/06/s-1/turns.jsonl.zst";
  gateway = none;
  authorization = none;
  length_header = none;
  body = two_frames;
  disk = good_disk;
  spool_path = some (chars "/spool/seal-1.upload");
}

route-Permit_example :
    ((route shelf_aws upload_request small_broker home_visit day_shelf).2 ≡ day_shelf)
    ⊎ Permit upload_request small_broker home_visit
route-Permit_example = route-Permit shelf_aws upload_request small_broker home_visit day_shelf

store_seal-Settled_example :
    Settled small_broker
      (shelf_bucket (chars "seals"))
      day_key
      (payload two_frames)
      day_shelf
      (store_seal shelf_aws upload_request small_broker day_key day_shelf)
store_seal-Settled_example =
    store_seal-Settled small_broker (shelf_bucket (chars "seals")) upload_request day_key day_shelf
      (omega arith) two_frames-InMemory

-- One listing has been, and the bucket has been emptied since.
abbrev listings : List (Event shelf_aws)
listings = listed home_visit day_shelf ∷ []

listing-Answered_example :
    let b = after shelf_aws small_broker listings in
    Answered shelf_aws (chars "seals") listings b home_visit [] (listing shelf_aws b home_visit [])
listing-Answered_example = listing-Answered shelf_aws small_broker refl listings home_visit []

-- A caller from elsewhere.
abbrev far_visit : Visit
far_visit = record home_visit { peer = record { ip = v4 8 8 8 8; port = 1 } }

far_open : open_route upload_request small_broker 2 ≡ none
unfolding open_route
far_open = refl

far_caller : caller upload_request small_broker far_visit ≡ err not_tailnet_address
unfolding caller resolve is_loopback is_tailnet_addr Resolver.address_leg Resolver.tailnet_leg
    gateway_subject bearer_token
far_caller = refl

route-unnamed_example :
    let (response, b', w') = route shelf_aws upload_request small_broker far_visit day_shelf in
    (response ≡ error 403 not_tailnet_address)
    × (b'.metrics ≡ new)
    × (b'.listing ≡ none)
    × (w' ≡ day_shelf)
route-unnamed_example =
    route-unnamed shelf_aws upload_request small_broker far_visit day_shelf not_tailnet_address
      far_open far_caller

abbrev no_seals : Shelf
no_seals = []

first_stored :
    (store_seal shelf_aws upload_request small_broker day_key no_seals).0 ≡ ok (uploaded 3)
unfolding store_seal spool_body spool_frames content_length size_of aws read_output run_aws text_eq
    shown Map.get find_key parse_listing lines line_list split is_row trim put
first_stored = refl

first_size : size_of shelf_aws (chars "seals") day_key no_seals ≡ (ok none, no_seals)
unfolding store_seal spool_body spool_frames content_length size_of aws read_output run_aws text_eq
    shown Map.get find_key parse_listing lines line_list split is_row trim put
first_size = refl

first_put :
    put shelf_aws
      (chars "seals")
      day_key
      (some (chars "/spool/seal-1.upload"))
      (spool_body good_disk 10 two_frames).1
      no_seals
    ≡ (ok tt, (day_key, chars "abc") ∷ [])
unfolding store_seal spool_body spool_frames content_length size_of aws read_output run_aws text_eq
    shown Map.get find_key parse_listing lines line_list split is_row trim put Map.insert Map.remove
first_put = refl

chunk-ne-broken : (c : List ℕ) → chunk c ≢ broken
chunk-ne-broken c e = cc

trailers-ne-broken : trailers ≢ broken
trailers-ne-broken e = cc

store_seal-answers_example :
    (store_seal shelf_aws upload_request small_broker day_key no_seals).0 ≡ ok (outcome_of none 3)
store_seal-answers_example =
    store_seal-answers shelf_aws small_broker upload_request day_key no_seals no_seals
      ((day_key, chars "abc") ∷ []) none (omega arith) refl refl (λ _. refl)
      (chunk-ne-broken (chars "ab"), (trailers-ne-broken, (chunk-ne-broken (chars "c"), tt)))
      (omega arith) (unfold content_length in refl) first_size first_put

abbrev stocked : Shelf
stocked = (store_seal shelf_aws upload_request small_broker day_key no_seals).2

second_size : size_of shelf_aws (chars "seals") day_key stocked ≡ (ok (some 3), stocked)
unfolding store_seal spool_body spool_frames content_length size_of aws read_output run_aws text_eq
    shown Map.get find_key parse_listing lines line_list split is_row trim put Map.insert printable
    print_rows show parse_row rsplit_once parse_u64 trim_start trim_end strip_cr is_whitespace
second_size = refl

store_seal_twice_example :
    let (r, b', w') = store_seal shelf_aws upload_request small_broker day_key no_seals in
    (store_seal shelf_aws upload_request b' day_key w'
      ≡ (ok (unchanged (length (payload two_frames))), b', stocked))
    × ((j : Text)
        → (shelf_bucket (chars "seals")).held stocked j ≡ (shelf_bucket (chars "seals")).held w' j)
store_seal_twice_example =
    store_seal_twice small_broker (shelf_bucket (chars "seals")) upload_request day_key no_seals
      stocked (uploaded 3) (some 3) (omega arith) two_frames-InMemory first_stored second_size
