-- ===== src/Latches/Tests.antt =====
-- Concrete latch stores: an unknown restore, a renewal, and what ends them.
use ferrum_foundry.Prelude.{arith, ltb, true, false, [], ◌∷◌, none, some, ◌≡◌, refl, ◌↔◌, inr}
use ferrum_foundry.Prelude.Maps.{get, Distinct, str_dec, delete}
use ferrum_foundry.Latches.{
  is_write_in_flight, settle_each, orders, acme_order_in_progress, AcmeOrderStatus,
  LatchObservation, Installed, Store, settled_by, settle_outcome_latches, release_outcome_latch,
  latch_outcome, latch_key, empty_store, restore, acme_finalization, UnobservedOutcome, transport,
  ltb,
}
use ferrum_foundry.Latches.Settling.{get-settle_outcome_latches, unsettled}
use ferrum_foundry.Latches.Review.{
  run, run-Spares, release_iff, latched, released, observed, installed, Released,
}
use ferrum_foundry.Latches.InFlight.{
  calls-is_write_in_flight, calls, new_world, begin, release, unended,
}

abbrev lost : UnobservedOutcome
lost = record { reason = transport; detail = none }

abbrev final : Installed
final = record { serial = 1; latch = acme_finalization "a" }

abbrev restored : Installed
restored = record { serial = 0; latch = restore "ferrum" "b.json" lost false }

abbrev store : Store
store = record {
  latches = ("restore:ferrum", restored) ∷ ("acme:finalization:a", final) ∷ [];
  next = 2;
  in_flight = [];
}

abbrev seen : LatchObservation
seen = record { acme_orders = some (record { id = "a"; status = AcmeOrderStatus.valid } ∷ []) }

abbrev unfinished : LatchObservation
unfinished = record {
  acme_orders = some (record { id = "a"; status = AcmeOrderStatus.processing } ∷ []);
}

store-Distinct : Distinct store.latches
unfolding get str_dec
store-Distinct = (refl, (refl, tt))

settled : get "acme:finalization:a" (settle_outcome_latches seen store).latches ≡ none
unfolding settle_outcome_latches get settle_each settled_by orders acme_order_in_progress delete
    str_dec
settled = refl

unsettled_processing :
    get "acme:finalization:a" (settle_outcome_latches unfinished store).latches ≡ some final
unfolding settle_outcome_latches get settle_each settled_by orders acme_order_in_progress delete
    str_dec
unsettled_processing = refl

get-settle_outcome_latches_example :
    get "restore:ferrum" (settle_outcome_latches seen store).latches
    ≡ unsettled seen (get "restore:ferrum" store.latches)
get-settle_outcome_latches_example =
    get-settle_outcome_latches seen store "restore:ferrum" store-Distinct

-- A finalization is seen to have ended; the restore's latch stays.
run-Spares_example :
    get "restore:ferrum" (run (observed seen ∷ released "restore:ferrum" final ∷ []) store).latches
    ≡ some restored
unfolding get settled_by str_dec
run-Spares_example =
    run-Spares (observed seen ∷ released "restore:ferrum" final ∷ []) store "restore:ferrum"
      restored store-Distinct (refl, (inr (λ p. omega (arith, p)), tt)) refl

release_iff_example :
    let s = run [] empty_store in
    let l = restored.latch in
    let later = run (latched final.latch ∷ []) (latch_outcome l s) in
    let out = release_outcome_latch (latch_key l) (installed l s) later in
    ((out.0 ≡ true) ↔ (get (latch_key l) later.latches ≡ some (installed l s)))
    × Released (latch_key l) later out "restore:ferrum"
release_iff_example = release_iff [] (latched final.latch ∷ []) restored.latch "restore:ferrum"

calls-is_write_in_flight_example :
    let w = calls (begin "a" ∷ begin "a" ∷ release 0 ∷ release 0 ∷ []) new_world in
    is_write_in_flight "a" w.store ≡ ltb 0 (unended "a" w.held)
calls-is_write_in_flight_example =
    calls-is_write_in_flight (begin "a" ∷ begin "a" ∷ release 0 ∷ release 0 ∷ []) "a"
