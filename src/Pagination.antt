-- ===== src/Pagination.antt =====
-- src/api/pagination.ts: the traversal of a paged collection. `fetch` stands for `fetchPage`: the
-- gateway's answer for an offset and a page size, `none` where the call throws. A traversal asks
-- for no offset twice, so an answer may depend on when it is asked for.
pub mod Rounds
pub mod Sound
pub mod Ends
pub mod Complete
mod Tests
use ferrum_foundry.Prelude.{
  ℕ, zero, suc, ◌+◌, String, Bool, true, false, Option, none, some, List, [], ◌∷◌, ◌++◌, leb, ◌==◌,
  if◌then◌else◌, length,
}
use ferrum_foundry.Prelude.Maps

-- A page as the gateway answers it. `none` stands for a number that is no safe integer from 0 on.
pub record Page {ℓ} (T : Type ℓ) : Type ℓ where
  pub items : List T
  pub offset : Option ℕ
  pub total : Option ℕ

pub record BoundedCollection {ℓ} (T : Type ℓ) : Type ℓ where
  pub items : List T
  pub total : ℕ
  pub complete : Bool

-- Why a traversal throws; `out_of_fuel` is the model's own.
pub data Failure : Type 0 where
  bad_page_size bad_budget aborted fetch_failed inconsistent changed repeated too_many : Failure
  stopped_advancing out_of_fuel : Failure

pub record CollectOptions {ℓ} (T : Type ℓ) : Type ℓ where
  pub page_size : ℕ
  pub budget : Option ℕ  -- `none` for no budget
  pub is_aborted : ℕ → Bool  -- whether the signal is aborted when this offset is due
  pub identity : Option (T → String)

-- The variables of the loop.
pub record State {ℓ} (T : Type ℓ) : Type ℓ where
  pub items : List T
  pub seen : List (String × Unit {0})
  pub offset : ℕ
  pub expected_total : Option ℕ

pub data Round {ℓ} (T : Type ℓ) : Type ℓ where
  finished : BoundedCollection T → Round T
  failed : Failure → Round T
  more : State T → Round T

pub data Result {ℓ} (T : Type ℓ) : Type ℓ where
  collected : BoundedCollection T → Result T
  threw : Failure → Result T

abbrev pub option_eq : Option ℕ → ℕ → Bool
option_eq none n = false
option_eq (some m) n = m == n

module _ {ℓ} {T : Type ℓ} where
  -- `seenIdentities` with the identities of a page added, `none` at a repeated one
  unfoldable pub see :
      (T → String) → List (String × Unit {0}) → List T → Option (List (String × Unit {0}))
  see identity seen [] = some seen
  see identity seen (x ∷ xs) =
      if Maps.has (identity x) seen then none else see identity (Maps.put (identity x) tt seen) xs

  unfoldable pub see_page :
      Option (T → String) → List (String × Unit {0}) → List T → Option (List (String × Unit {0}))
  see_page none seen xs = some seen
  see_page (some identity) seen xs = see identity seen xs

module _ {ℓ} {T : Type ℓ} (o : CollectOptions T) where
  -- `items.length >= budget`
  abbrev pub spent : ℕ → Bool
  spent n = elim o.budget [ none ↦ false | some b ↦ leb b n ]

  -- the rest of a round, from `items.push` on
  unfoldable pub take_page : State T → Page T → ℕ → List (String × Unit {0}) → Round T
  take_page s p expected seen =
      let items = s.items ++ p.items in
      let n = length items in
      if leb expected n
      then (if n == expected
          then finished (record { items = items; total = expected; complete = true })
          else failed too_many)
      else if spent n
      then finished (record { items = items; total = expected; complete = false })
      else if length p.items == 0
      then failed stopped_advancing
      else more (record {
        items = items;
        seen = seen;
        offset = s.offset + length p.items;
        expected_total = some expected;
      })

  unfoldable pub check_seen : State T → Page T → ℕ → Round T
  check_seen s p expected = elim (see_page o.identity s.seen p.items) [
    | none ↦ failed repeated
    | some seen ↦ take_page s p expected seen
  ]

  unfoldable pub check_total : State T → Page T → ℕ → Round T
  check_total s p total = elim s.expected_total [
    | none ↦ check_seen s p total
    | some expected ↦ if total == expected then check_seen s p expected else failed changed
  ]

  unfoldable pub check_page : State T → Page T → Round T
  check_page s p = elim p.total [
    | none ↦ failed inconsistent
    | some total ↦
        if option_eq p.offset s.offset then check_total s p total else failed inconsistent
  ]

  module _ (fetch : ℕ → ℕ → Option (Page T)) where
    unfoldable pub round : State T → Round T
    round s = if o.is_aborted s.offset then failed aborted else elim (fetch s.offset o.page_size) [
      | none ↦ failed fetch_failed
      | some p ↦ check_page s p
    ]

    unfoldable pub loop : ℕ → State T → Result T
    loop zero s = threw out_of_fuel
    loop (suc fuel) s = elim (round s) [
      | finished c ↦ collected c
      | failed e ↦ threw e
      | more s' ↦ loop fuel s'
    ]

    abbrev pub start : State T
    start = record { items = []; seen = []; offset = 0; expected_total = none }

    abbrev pub bad_budget? : Bool
    bad_budget? = elim o.budget [ none ↦ false | some b ↦ b == 0 ]

    unfoldable pub collect_bounded_pages : ℕ → Result T
    collect_bounded_pages fuel =
        if o.page_size == 0
        then threw bad_page_size
        else if bad_budget?
        then threw bad_budget
        else loop fuel start
