-- ===== src/Throttle/Window.antt =====
-- The rolling window of one entry.
use ferrum_foundry.Prelude.{
  ℕ, suc, ◌+◌, ◌≤◌, true, false, none, some, List, [], ◌∷◌, ◌++◌, ◌≡◌, ◌≢◌, ◌↔◌, refl, arith,
  length, Option-cases, Bool-cases, inl, inr, ap, All, All-append, keep, last?, length-append,
  keep-append, keep-eq-nil, keep-keep, All-keep, last?-concat, All-imp, ◌∙◌,
}
use mathlib.Core.Path.{subst}
use ferrum_foundry.Throttle.{Options, Entry, new_entry, in_window, is_stale, refresh, count}

-- The times of earlier failures, newest first, none after `now`.
abbrev pub Descending : ℕ → List ℕ → Type 0
Descending now [] = Unit
Descending now (t ∷ ts) = (t ≤ now) × Descending t ts

Descending-later : (t now : ℕ) (ts : List ℕ) → t ≤ now → Descending t ts → Descending now ts
Descending-later t now [] h d = tt
Descending-later t now (u ∷ ts) h (k, d) = (omega arith, d)

module _ (o : Options) where
  -- A fresh entry after failures at the given times, newest first.
  unfoldable pub entry_after : List ℕ → Entry
  entry_after [] = new_entry
  entry_after (t ∷ ts) = (count o (refresh o (entry_after ts) t) t).0

  -- None of the failures locked the entry.
  abbrev pub Unlocked : List ℕ → Type 0
  Unlocked [] = Unit
  Unlocked (t ∷ ts) =
      ((count o (refresh o (entry_after ts) t) t).1.locked_for_ms ≡ none) × Unlocked ts

  abbrev UpTo : ℕ → List ℕ → Type 0
  UpTo now = All (λ at. at ≤ now)

  -- What an unlocked entry looks like between two failures: its newest failure bounds the others.
  record Settled (e : Entry) : Type 0 where
    newest : (t : ℕ) → last? e.failures ≡ some t → UpTo t e.failures
    started : last? e.failures ≡ none → e.failures ≡ []

  unlocked_failures :
      (e : Entry) (t : ℕ)
      → (count o e t).1.locked_for_ms ≡ none
      → (count o e t).0.failures ≡ keep (in_window o t) e.failures ++ t ∷ []
  unfolding count
  unlocked_failures e t h = ground arith

  count_failures :
      (e : Entry) (now : ℕ)
      → let n = suc (length (keep (in_window o now) e.failures)) in
        ((count o e now).1.failures ≡ n)
        × (((count o e now).1.locked_for_ms ≢ none) ↔ (o.max_failures ≤ n))
  unfolding count
  count_failures e now =
      let n : length (keep (in_window o now) e.failures ++ now ∷ [])
          ≡ suc (length (keep (in_window o now) e.failures)) =
        length-append (keep (in_window o now) e.failures) (now ∷ []) ∙ omega arith in
      ground (arith, n)

  keep-later :
      (t now : ℕ) (ts : List ℕ)
      → t ≤ now
      → keep (in_window o now) (keep (in_window o t) ts) ≡ keep (in_window o now) ts
  keep-later t now ts h = keep-keep (in_window o now) (in_window o t) ts (λ at w. ground arith)

  -- A stale entry has no failure in the window, now or later.
  keep_of_is_stale :
      (e : Entry) (t now : ℕ)
      → Settled e
      → is_stale o e t ≡ true
      → t ≤ now
      → keep (in_window o now) e.failures ≡ []
  unfolding is_stale
  keep_of_is_stale e t now s old h = elim (Option-cases (last? e.failures)) [
    | inl nothing ↦ rw (s.started nothing)
    | inr (l, last) ↦
        let past : l + o.window_ms ≤ t = ground arith in
        keep-eq-nil (in_window o now) e.failures (
          All-imp (λ at. at ≤ l) (λ at. in_window o now at ≡ false) e.failures
            (λ at b. ground arith) (s.newest l last))
  ]

  -- So resetting it changes nothing that the window shows.
  keep-refresh :
      (e : Entry) (t now : ℕ)
      → Settled e
      → t ≤ now
      → keep (in_window o now) (refresh o e t).failures ≡ keep (in_window o now) e.failures
  unfolding refresh
  keep-refresh e t now s h = elim (Bool-cases (is_stale o e t)) [
    | inr live ↦ rw live
    | inl old ↦ rw (old, keep_of_is_stale e t now s old h)
  ]

  UpTo-refresh : (e : Entry) (t now : ℕ) → UpTo now e.failures → UpTo now (refresh o e t).failures
  unfolding refresh
  UpTo-refresh e t now h = ground arith

  UpTo-entry_after :
      (ts : List ℕ) (now : ℕ) → Descending now ts → Unlocked ts → UpTo now (entry_after ts).failures
  unfolding entry_after
  UpTo-entry_after [] now d u = tt
  UpTo-entry_after (t ∷ ts) now (h, d) (free, u) =
      let before = entry_after ts in
      let older : UpTo t (refresh o before t).failures =
        UpTo-refresh before t t (UpTo-entry_after ts t d u) in
      let older' : UpTo now (refresh o before t).failures =
        All-imp (λ at. at ≤ t) (λ at. at ≤ now) (refresh o before t).failures (λ at b. omega arith)
          older in
      rw (unlocked_failures (refresh o before t) t free) (
        All-append (λ at. at ≤ now) _ (t ∷ [])
          (All-keep (in_window o t) (λ at. at ≤ now) (refresh o before t).failures older') (h, tt))

  entry_after-Settled :
      (ts : List ℕ) (now : ℕ) → Descending now ts → Unlocked ts → Settled (entry_after ts)
  unfolding entry_after
  entry_after-Settled [] now d u = record { newest = λ t e. tt; started = λ e. refl }
  entry_after-Settled (t ∷ ts) now (h, d) (free, u) =
      let e = refresh o (entry_after ts) t in
      let shape : (count o e t).0.failures ≡ keep (in_window o t) e.failures ++ t ∷ [] =
        unlocked_failures e t free in
      let newest_is : last? (count o e t).0.failures ≡ some t =
        ap last? shape ∙ last?-concat (keep (in_window o t) e.failures) t in
      let bounded : UpTo t (count o e t).0.failures =
        UpTo-entry_after (t ∷ ts) t (omega arith, d) (free, u) in
      record {
        newest = λ l last.
            let same : t ≡ l = cc in subst (λ b. UpTo b (count o e t).0.failures) same bounded;
        started = λ last. cc;
      }

  -- The failures that the window shows at `now` are exactly the recent ones of the whole history.
  keep-entry_after :
      (ts : List ℕ) (now : ℕ)
      → Descending now ts
      → Unlocked ts
      → length (keep (in_window o now) (entry_after ts).failures)
        ≡ length (keep (in_window o now) ts)
  unfolding entry_after
  keep-entry_after [] now d u = refl
  keep-entry_after (t ∷ ts) now (h, d) (free, u) =
      let before = entry_after ts in
      let e = refresh o before t in
      let shown = keep (in_window o t) e.failures in
      let settled : Settled before = entry_after-Settled ts t d u in
      let earlier : Descending now ts = Descending-later t now ts h d in
      let same : keep (in_window o now) shown ≡ keep (in_window o now) before.failures =
        keep-later t now e.failures h ∙ keep-refresh before t now settled h in
      rw (unlocked_failures e t free, keep-append, same, length-append)
        (ground (arith, keep-entry_after ts now earlier u))

  -- From a fresh entry, after failures at times that never go back, none of which locked the entry:
  -- the next failure, at a time that does not go back either, counts itself and the failures of the
  -- last `windowMs`, however they lie, and locks the entry exactly when they are `maxFailures` or
  -- more.
  pub count_window :
      (ts : List ℕ) (now : ℕ)
      → Descending now ts
      → Unlocked ts
      → let out = (count o (refresh o (entry_after ts) now) now).1 in
        (out.failures ≡ suc (length (keep (in_window o now) ts)))
        × ((out.locked_for_ms ≢ none) ↔ (o.max_failures ≤ suc (length (keep (in_window o now) ts))))
  count_window ts now d u =
      let e = entry_after ts in
      let settled : Settled e = entry_after-Settled ts now d u in
      let shown : length (keep (in_window o now) (refresh o e now).failures)
          ≡ length (keep (in_window o now) ts) =
        ap length (keep-refresh e now now settled (omega arith)) ∙ keep-entry_after ts now d u in
      let (counted, locks) = count_failures (refresh o e now) now in rw (← shown) (counted, locks)
