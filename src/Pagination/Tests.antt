-- ===== src/Pagination/Tests.antt =====
-- Traversals of small collections, and the theorems applied to them.
use ferrum_foundry.Prelude.{
  ◌<◌, String, true, false, none, some, List, [], ◌∷◌, ◌≡◌, ◌≢◌, refl, arith, length, ◌⊎◌,
}
use ferrum_foundry.Pagination.{
  BoundedCollection, Failure, CollectOptions, collected, threw, see, see_page, spent, take_page,
  check_seen, check_total, check_page, round, loop, collect_bounded_pages,
}
use ferrum_foundry.Pagination.Rounds.{Unrepeated}
use ferrum_foundry.Pagination.Sound.{Reads, collect_sound}
use ferrum_foundry.Pagination.Ends.{collect-ne-out_of_fuel}
use ferrum_foundry.Pagination.Complete.{paged, IsUnbounded, collect_paged}
use ferrum_foundry.Prelude.Maps

traversal : Unit {0}
unfolding see see_page take_page check_seen check_total check_page round loop collect_bounded_pages
    Maps.get Maps.has Maps.put Maps.str_dec
traversal = tt

abbrev options : CollectOptions String
options = record {
  page_size = 2;
  budget = none;
  is_aborted = λ at. false;
  identity = some (λ x. x);
}

abbrev rows : List String
rows = "a" ∷ "b" ∷ "c" ∷ []

abbrev all_rows : BoundedCollection String
all_rows = record { items = rows; total = 3; complete = true }

abbrev two_rows : BoundedCollection String
two_rows = record { items = "a" ∷ "b" ∷ []; total = 3; complete = false }

reads_rows : collect_bounded_pages options (paged rows) 4 ≡ collected all_rows
unfolding traversal
reads_rows = refl

stops_at_budget :
    collect_bounded_pages (record options { budget = some 1 }) (paged rows) 4 ≡ collected two_rows
unfolding traversal
stops_at_budget = refl

refuses_repeats :
    collect_bounded_pages options (paged ("a" ∷ "b" ∷ "a" ∷ [])) 4 ≡ threw Failure.repeated
unfolding traversal
refuses_repeats = refl

collect_sound_example :
    Reads (record options { budget = some 1 }) (paged rows) 3 0 ("a" ∷ "b" ∷ [])
    × Unrepeated (some (λ (x : String). x)) ("a" ∷ "b" ∷ [])
    × (((two_rows.complete ≡ true) × (length two_rows.items ≡ 3))
        ⊎ ((two_rows.complete ≡ false)
            × (length two_rows.items < 3)
            × (spent (record options { budget = some 1 }) (length two_rows.items) ≡ true)))
collect_sound_example =
    collect_sound (record options { budget = some 1 }) (paged rows) 4 two_rows stops_at_budget

collect-ne-out_of_fuel_example :
    collect_bounded_pages options (paged rows) 3 ≢ threw Failure.out_of_fuel
collect-ne-out_of_fuel_example =
    collect-ne-out_of_fuel options (paged rows) 3 (λ p t answered total. ground arith) (omega arith)

rows-IsUnbounded : IsUnbounded options rows
unfolding traversal
rows-IsUnbounded = record {
  positive = omega arith;
  unbudgeted = refl;
  not_aborted = λ at. refl;
  distinct = (refl, (refl, (refl, tt)));
}

collect_paged_example : collect_bounded_pages options (paged rows) 4 ≡ collected all_rows
collect_paged_example = collect_paged options rows rows-IsUnbounded 4 (omega arith)
