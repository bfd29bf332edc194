-- ===== src/Tests/Requests.antt =====
-- api/: two requests to the FMS and one elsewhere; a folder of two entries.
use entsoe_pipeline.Prelude.{
  ◌<◌, List, [], ◌∷◌, Text, text, true, false, Bool-cases, inl, inr, strip, replace_doubled,
  if◌then◌else◌, ℕ, ◌+◌, ◌*◌, ◌/◌, ◌≤◌, ◌≡◌, refl, false, Option, some, List, [], ◌∷◌, length, take,
  drop, Text, text, has_substring, upper, lower, ◌==◌, if◌then◌else◌, arith,
}
use entsoe_pipeline.Api.Counter.{init, requests}
use entsoe_pipeline.Api.Throttler.{ThrottledSession, Clock, PreparedRequest, sends}
use entsoe_pipeline.Api.Throttler.Pacing.{fms_requests, sends_pace}
use entsoe_pipeline.Prelude.Texts.Order.{text_le}
use entsoe_pipeline.Api.Listing.Sorting.{RawItem, sort_by_name, IsSorted}
use entsoe_pipeline.Api.Listing.{listed, ls_fms, list_folder_raw_items}
use entsoe_pipeline.Api.Listing.Recursion.{recursive_path, list_folder_raw_items_recursive}
use entsoe_pipeline.Api.Listing.Recursion.Gather.{gather, SameFiles}
use entsoe_pipeline.Api.Listing.Recursion.Complete.{IsBounded, list_folder_raw_items_recursive_lem}
use entsoe_pipeline.Api.Listing.Paging.{list_folder_raw_items_lem}

abbrev session : ThrottledSession
session = record { min_interval = 637; last_request_time = 0; counter = init }

abbrev listing_request : PreparedRequest
listing_request = record {
  url = text "https://fms.tp.entsoe.eu/listFolder";
  body = text "TP_export";
}

abbrev other_request : PreparedRequest
other_request = record { url = text "https://keycloak/token"; body = [] }

abbrev run : List (Clock × PreparedRequest)
run =
    (record { now = 1000; slack = 0 }, listing_request)
    ∷ (record { now = 1001; slack = 0 }, other_request)
    ∷ (record { now = 1100; slack = 2 }, listing_request)
    ∷ []

run_paced :
    ((sends run session).last_request_time ≡ 1639) × ((sends run session).counter.prod_export ≡ 2)
unfolding sends has_substring upper lower
run_paced = (refl, refl)

sends_pace_example :
    (fms_requests run * session.min_interval + session.last_request_time
      ≤ (sends run session).last_request_time)
    × (requests (sends run session).counter ≡ requests session.counter + fms_requests run)
    × ((sends run session).min_interval ≡ session.min_interval)
sends_pace_example = sends_pace run session

abbrev entries : List RawItem
entries =
    record {
      name = text "b.csv";
      is_folder = false;
      size = 1;
      original_size = 1;
      last_updated = [];
      file_id = [];
    }
    ∷ record {
      name = text "a.csv";
      is_folder = false;
      size = 2;
      original_size = 2;
      last_updated = [];
      file_id = [];
    }
    ∷ []

abbrev page : Text → ℕ → ℕ → Option (List RawItem)
page path i n = some (take n (drop (i * n) entries))

ls_fms_runs :
    ls_fms page 3 (text "/TP_export/Load/") 1 ≡ listed (text "b.csv" ∷ text "a.csv" ∷ []) 3
unfolding ls_fms
ls_fms_runs = refl

list_folder_raw_items_example :
    list_folder_raw_items page 1 (text "Load") (text "TP_export")
    ≡ listed (sort_by_name entries) (length entries / 1000 + 1)
list_folder_raw_items_example =
    list_folder_raw_items_lem page (text "Load") (text "TP_export") entries 1 (λ i n. refl)
      (omega arith)

abbrev file_named : Text → RawItem
file_named name = record {
  name = name;
  is_folder = false;
  size = 1;
  original_size = 1;
  last_updated = [];
  file_id = [];
}

-- A folder with a file and one folder, which has a file.
abbrev content : Text → List RawItem
content path =
    if path == text "/T/F/"
    then file_named (text "x.csv")
      ∷ record {
        name = text "A";
        is_folder = true;
        size = 0;
        original_size = 0;
        last_updated = [];
        file_id = [];
      }
      ∷ []
    else (if path == text "/T/F/A/" then file_named (text "y.csv") ∷ [] else [])

abbrev content_page : Text → ℕ → ℕ → Option (List RawItem)
content_page path i n = some (take n (drop (i * n) (content path)))

abbrev content_below : Text → List RawItem
content_below sub = content (recursive_path (text "T") (text "F") sub)

content_short : (path : Text) → length (content path) / 1000 < 1
content_short path = elim (Bool-cases (path == text "/T/F/")) [
  | inl e ↦ rw e (omega arith)
  | inr e ↦ elim (Bool-cases (path == text "/T/F/A/")) [
    | inl k ↦ rw (e, k) (omega arith)
    | inr k ↦ rw (e, k) (omega arith)
  ]
]

content-IsBounded : IsBounded content_below 2 []
unfolding list_folder_raw_items_recursive ◌==◌ strip replace_doubled
content-IsBounded = ((λ e. tt), ((λ e. ((λ k. ground (arith, k)), tt)), tt))

list_folder_raw_items_recursive_lem_example :
    (xs : List RawItem) × (calls : ℕ) × (list_folder_raw_items_recursive content_page
        (text "F")
        (text "T")
        1
        2
        []
      ≡ listed xs calls)
    × IsSorted xs
    × SameFiles xs (gather content_below 2 [])
list_folder_raw_items_recursive_lem_example =
    list_folder_raw_items_recursive_lem content_page (text "F") (text "T") content_below 1 1 []
      (λ s i n. refl) (λ s. content_short (recursive_path (text "T") (text "F") s))
      content-IsBounded

recursive_runs :
    list_folder_raw_items_recursive content_page (text "F") (text "T") 1 2 []
    ≡ listed (file_named (text "A/y.csv") ∷ file_named (text "x.csv") ∷ []) 2
unfolding list_folder_raw_items_recursive ◌==◌ strip replace_doubled text_le
recursive_runs = refl
