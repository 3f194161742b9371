-- ===== src/Latches.antt =====
-- src/stores/outcomeLatches.ts: the latches of writes whose outcome no answer told, and the counts
-- of writes in flight; with acmeOrderInProgress of src/api/tls.ts. The identity of a latch object,
-- which `!==` compares, is a serial number that latchOutcome draws. The listeners are not modelled:
-- a publication is the state after it. A name is a text; an order carries what settledBy reads.
pub mod Settling
pub mod Review
pub mod InFlight
mod Tests
use Prim.Native.String.{◌++◌ as ◌++ˢ◌}
use text.Mathlib.Text.{◌==◌ as ◌==ˢ◌}
use ferrum_foundry.Prelude.{
  ℕ, String, Bool, true, false, not, List, [], ◌∷◌, ◌+◌, ◌-◌, ltb, Option, none, some, ite,
  if◌then◌else◌, ◌||◌, ◌&&◌, any, length, ◌==◌,
}
use ferrum_foundry.Prelude.Maps.{get, put, delete}

pub data AcmeOrderStatus : Type 0 where
  pending_challenges ready processing valid failed cancelled : AcmeOrderStatus

pub record AcmeOrder : Type 0 where
  pub id : String
  pub status : AcmeOrderStatus

unfoldable pub acme_order_in_progress : AcmeOrder → Bool
acme_order_in_progress order = elim order.status [
  | valid ↦ false
  | failed ↦ false
  | cancelled ↦ false
  | _ ↦ true
]

pub data UnobservedOutcomeReason : Type 0 where
  gateway_timeout upstream_failure client_timeout transport : UnobservedOutcomeReason

pub record UnobservedOutcome : Type 0 where
  pub reason : UnobservedOutcomeReason
  pub detail : Option String

pub data OutcomeLatch : Type 0 where
  acme_order_creation : (message order_id : String) → OutcomeLatch
  acme_renewal : (certificate_id order_id : String) → OutcomeLatch
  acme_finalization : (order_id : String) → OutcomeLatch
  api_spec_write : (namespace message : String) → OutcomeLatch
  restore :
      (namespace file_name : String)
      → UnobservedOutcome
      → (confirmed_api_spec_deletion : Bool) → OutcomeLatch

pub record LatchObservation : Type 0 where
  pub acme_orders : Option (List AcmeOrder)

unfoldable pub latch_key : OutcomeLatch → String
latch_key (acme_order_creation _ _) = "acme:order-creation"
latch_key (acme_renewal certificate_id _) = "acme:renewal:" ++ˢ certificate_id
latch_key (acme_finalization order_id) = "acme:finalization:" ++ˢ order_id
latch_key (api_spec_write namespace _) = "api-spec:" ++ˢ namespace
latch_key (restore namespace _ _ _) = "restore:" ++ˢ namespace

-- `observation.acmeOrders ?? []`
unfoldable pub orders : LatchObservation → List AcmeOrder
orders o = elim o.acme_orders [ none ↦ [] | some os ↦ os ]

unfoldable pub settled_by : OutcomeLatch → LatchObservation → Bool
settled_by (acme_order_creation _ order_id) o = any (λ order. order.id ==ˢ order_id) (orders o)
settled_by (acme_renewal _ order_id) o = any (λ order. order.id ==ˢ order_id) (orders o)
settled_by (acme_finalization order_id) o =
    any (λ order. (order.id ==ˢ order_id) && not (acme_order_in_progress order)) (orders o)
settled_by (api_spec_write _ _) o = false
settled_by (restore _ _ _ _) o = false

-- A stored latch object: its content, and its identity.
pub record Installed : Type 0 where
  pub serial : ℕ
  pub latch : OutcomeLatch

pub record Store : Type 0 where
  pub latches : List (String × Installed)
  pub next : ℕ
  pub in_flight : List (String × ℕ)

abbrev pub empty_store : Store
empty_store = record { latches = []; next = 0; in_flight = [] }

unfoldable pub latch_outcome : OutcomeLatch → Store → Store
latch_outcome latch s = record s {
  latches = put (latch_key latch) (record { serial = s.next; latch = latch }) s.latches;
  next = s.next + 1;
}

-- `latches.get(key) === reviewed`
unfoldable pub is_current : Option Installed → Installed → Bool
is_current none reviewed = false
is_current (some i) reviewed = i.serial == reviewed.serial

unfoldable pub release_outcome_latch : String → Installed → Store → Bool × Store
release_outcome_latch key reviewed s =
    if is_current (get key s.latches) reviewed
    then (true, record s { latches = delete key s.latches })
    else (false, s)

-- the loop of settleOutcomeLatches, which deletes from the copy `next`
unfoldable pub settle_each :
    LatchObservation
    → List (String × Installed)
    → List (String × Installed)
    → List (String × Installed)
settle_each o [] next = next
settle_each o ((key, i) ∷ m) next =
    settle_each o m (if settled_by i.latch o then delete key next else next)

unfoldable pub settle_outcome_latches : LatchObservation → Store → Store
settle_outcome_latches o s =
    let next = settle_each o s.latches s.latches in
    if length next == length s.latches then s else record s { latches = next }

-- What beginWrite returns: a function that remembers whether it was called.
pub record Release : Type 0 where
  pub key : String
  pub released : Bool

abbrev pub or_else : ℕ → Option ℕ → ℕ
or_else d none = d
or_else d (some n) = n

unfoldable pub begin_write : String → Store → Store × Release
begin_write key s = (
  record s { in_flight = put key (or_else 0 (get key s.in_flight) + 1) s.in_flight },
  record { key = key; released = false },
)

-- A count that is not above 0 leaves the map. The count that is read is never 0, so no subtraction
-- goes below 0 here.
unfoldable pub release_write : Release → Store → Store × Release
release_write r s =
    if r.released
    then (s, r)
    else let count = or_else 1 (get r.key s.in_flight) - 1 in
      (
        if ltb 0 count
            then record s { in_flight = put r.key count s.in_flight }
            else record s { in_flight = delete r.key s.in_flight },
        record r { released = true },
      )

unfoldable pub is_write_in_flight : String → Store → Bool
is_write_in_flight key s = ltb 0 (or_else 0 (get key s.in_flight))
