-- ===== src/Registry/Scan.antt =====
-- src/server/namespace-registry.ts: scanGrantedNames, the traversal that finds the granted names,
-- and the page of them that a scoped list answers. `fetch k offset` is the answer to the k-th
-- request, so the registry may change between two pages.
use ferrum_foundry.Prelude.{
  ℕ, zero, suc, ◌+◌, String, Bool, true, not, ◌&&◌, ◌||◌, List, [], ◌∷◌, ◌++◌, Option, none, some,
  if◌then◌else◌, leb, ltb, ◌==◌, length, any, take, drop,
}
use ferrum_foundry.Prelude.Json.{sort}
use ferrum_foundry.Policy.{includes}
use ferrum_foundry.Policy.Attachment.{unique_after}
use ferrum_foundry.Registry.{Principal, Refusal, is_namespace_name}
use ferrum_foundry.Registry.Query.{Window, rejected, window, registry_pagination}

-- A page as it is parsed. `none` stands for data that is no array of texts, and for a number that
-- is no safe integer from 0 on.
pub data Page : Type 0 where
  legacy : Option (List String) → Page
  envelope : Option (List String) → Option ℕ → Option ℕ → Page  -- data, total and offset

-- A response: its status, and its page unless the body cannot be read.
pub record Response : Type 0 where
  pub status : ℕ
  pub page : Option Page

pub data Unavailable : Type 0 where
  over_budget changed : Unavailable
  upstream : ℕ → Unavailable

pub data ScanOutcome : Type 0 where
  names : List String → ScanOutcome
  unavailable : Unavailable → ScanOutcome
  threw : ScanOutcome

-- The variables of the loop; `witnessed` holds the keys of the names that were listed.
pub record Progress : Type 0 where
  pub found : List String
  pub witnessed : List String
  pub first_total : Option ℕ
  pub offset : ℕ

pub record Listing : Type 0 where
  pub found : List String
  pub witnessed : List String
  pub consistent : Bool

pub data Round : Type 0 where
  finished : ScanOutcome → Round
  more : Progress → Round

abbrev pub page_size : ℕ
page_size = 1000

-- `set.add(x)`
unfoldable pub add : List String → String → List String
add xs x = if includes xs x then xs else xs ++ x ∷ []

-- `key` stands for witnessKey, and `le` for the order of Array.prototype.sort.
module _ (key : String → String) (le : String → String → Bool) (grants : List String) where
  unfoldable pub list_name : Listing → String → Listing
  list_name l name = record {
    found = if includes grants name then add l.found name else l.found;
    witnessed = add l.witnessed (key name);
    consistent = l.consistent && not (includes l.witnessed (key name));
  }

  unfoldable pub list_names : Listing → List String → Listing
  list_names l [] = l
  list_names l (name ∷ rest) = list_names (list_name l name) rest

  -- what follows the names of a page; `is_last` where no further page is due
  unfoldable pub settle : Listing → Option ℕ → ℕ → Bool → Bool → Round
  settle l first offset is_last is_empty =
      if length l.found == length grants
      then finished (names (sort le l.found))
      else if not l.consistent
      then finished (unavailable changed)
      else if is_last
      then finished (names (sort le l.found))
      else if is_empty
      then finished threw
      else more (record {
        found = l.found;
        witnessed = l.witnessed;
        first_total = first;
        offset = offset;
      })

  unfoldable pub take_names : Progress → List String → Option ℕ → ℕ → Bool → Bool → Round
  take_names s xs first offset consistent is_last =
      settle
        (list_names (record { found = s.found; witnessed = s.witnessed; consistent = consistent })
          xs)
        first offset is_last (length xs == 0)

  unfoldable pub take_envelope : Progress → List String → ℕ → ℕ → Round
  take_envelope s xs total offset =
      if not (offset == s.offset) || ltb page_size (length xs)
      then finished threw
      else let first = elim s.first_total as (λ _. ℕ) [ none ↦ total | some n ↦ n ] in
        let next = s.offset + length xs in
        take_names s xs (some first) next ((total == first) && leb next first) (leb first next)

  unfoldable pub take_page : Progress → Page → Round
  take_page s (legacy none) = finished threw
  take_page s (legacy (some xs)) =
      if any (λ x. not (is_namespace_name x)) xs
      then finished threw
      else take_names s xs s.first_total s.offset true true
  take_page s (envelope (some xs) (some total) (some offset)) =
      if any (λ x. not (is_namespace_name x)) xs
      then finished threw
      else take_envelope s xs total offset
  take_page s (envelope _ _ _) = finished threw

  unfoldable pub answer : Progress → Response → Round
  answer s r =
      if not (r.status == 200)
      then finished (unavailable (upstream (if leb 400 r.status then r.status else 502)))
      else elim r.page [ none ↦ finished threw | some p ↦ take_page s p ]

  -- `none` where fetchPage throws
  module _ (fetch : ℕ → ℕ → Option Response) where
    unfoldable pub round : ℕ → Progress → Round
    round k s = elim (fetch k s.offset) [ none ↦ finished threw | some r ↦ answer s r ]

    -- the loop from the k-th page on, with so many pages left
    unfoldable pub scan_from : ℕ → ℕ → Progress → ScanOutcome
    scan_from zero k s = unavailable over_budget
    scan_from (suc left) k s = elim (round k s) [
      | finished o ↦ o
      | more s' ↦ scan_from left (suc k) s'
    ]

    unfoldable pub scan_granted_names : ℕ → ScanOutcome
    scan_granted_names max_pages =
        scan_from max_pages 0
          (record { found = []; witnessed = []; first_total = none; offset = 0 })

pub data ListAnswer : Type 0 where
  listing : List String → Window → ℕ → ListAnswer  -- data, pagination and total
  refused : Refusal → ListAnswer
  failed : ScanOutcome → ListAnswer

unfoldable pub page_of : Window → ScanOutcome → ListAnswer
page_of w (names sorted) = listing (take w.limit (drop w.offset sorted)) w (length sorted)
page_of w o = failed o

-- `new Set(principal.namespaces)`
unfoldable pub grants_of : Principal → List String
grants_of p = elim p.namespaces [ none ↦ [] | some xs ↦ unique_after [] xs ]

-- `scan` is the outcome of the traversal that this request joins, for its grants.
unfoldable pub scoped_registry_list :
    List (String × String) → Principal → (List String → ScanOutcome) → ListAnswer
scoped_registry_list query p scan = elim (registry_pagination query) [
  | rejected r ↦ refused r
  | window w ↦ page_of w (scan (grants_of p))
]
