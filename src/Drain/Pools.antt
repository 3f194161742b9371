-- ===== src/Drain/Pools.antt =====
-- The pools count the drains that hold a slot, and never exceed their slots.
use ferrum_foundry.Prelude.{
  ℕ, zero, suc, ◌≤◌, min, Bool, true, false, not, ◌||◌, List, [], ◌∷◌, ◌++◌, Option, some, ◌≡◌,
  refl, arith, if◌then◌else◌, All, All-append, leb, length, Bool-cases, Option-cases, inl, inr,
}
use ferrum_foundry.Drain.{
  Config, Unread, Upload, Server, Event, prefinish, finish, chunk, timers_due, stopped, pre_close,
  close_connection, write_response, linger_briefly, opened, start_drain, take_chunk, is_due, nth,
  put_upload, release, while_draining, abandon, abandon_first, has_room, take_slot, admit, step,
  run, idle_server,
}
use ferrum_foundry.Drain.Slots.{
  weight, slots_held, slots_held-append, slots_held-set, All-set, All-nth,
}
use ferrum_foundry.Drain.Fair.{
  IsFair, close_connection-IsFair, write_response-IsFair, take_chunk-IsFair, opened-IsFair,
  start_drain-IsFair, close_connection-weight, take_chunk-weight, write_response-weight,
}

pub record IsWell (config : Config) (s : Server) : Type 0 where
  pub signed_in_counted : s.signed_in_active ≡ slots_held false s.uploads
  pub signed_out_counted : s.signed_out_active ≡ slots_held true s.uploads
  pub signed_in_fits : s.signed_in_active ≤ config.max_active_uploads
  pub signed_out_fits : s.signed_out_active ≤ min 8 config.max_active_uploads
  pub fair : All IsFair s.uploads

module _ (config : Config) where
  put_upload-IsWell :
      (i : ℕ) (u v : Upload) (s : Server)
      → nth i s.uploads ≡ some u
      → IsFair v
      → ((pool : Bool) → weight pool v ≡ weight pool u)
      → IsWell config s
      → IsWell config (put_upload i v s)
  unfolding put_upload
  put_upload-IsWell i u v s e f same w = record {
    signed_in_counted =
        omega (arith, w.signed_in_counted, same false, slots_held-set false i s.uploads u v e);
    signed_out_counted =
        omega (arith, w.signed_out_counted, same true, slots_held-set true i s.uploads u v e);
    signed_in_fits = w.signed_in_fits;
    signed_out_fits = w.signed_out_fits;
    fair = All-set IsFair i s.uploads v f w.fair;
  }

  -- the upload that a release leaves
  abbrev ended : Bool → Upload → Upload
  ended closes u =
      let v = record u { is_draining = false } in if closes then close_connection v else v

  ended-IsFair : (closes : Bool) (u : Upload) → IsFair u → IsFair (ended closes u)
  ended-IsFair true u f =
      close_connection-IsFair _
        (record { written_first = f.written_first; within_cap = f.within_cap; brief = f.brief })
  ended-IsFair false u f = record {
    written_first = f.written_first;
    within_cap = f.within_cap;
    brief = f.brief;
  }

  ended-weight : (pool closes : Bool) (u : Upload) → weight pool (ended closes u) ≡ 0
  unfolding close_connection
  ended-weight true true u = ground arith
  ended-weight false true u = ground arith
  ended-weight true false u = refl
  ended-weight false false u = refl

  release-IsWell :
      (i : ℕ) (closes : Bool) (u : Upload) (s : Server)
      → nth i s.uploads ≡ some u
      → u.is_draining ≡ true
      → IsWell config s
      → IsWell config (release i closes u s)
  unfolding release
  release-IsWell i closes u s e d w =
      let v = ended closes u in
      let counted_in = slots_held-set false i s.uploads u v e in
      let counted_out = slots_held-set true i s.uploads u v e in
      let none_in = ended-weight false closes u in
      let none_out = ended-weight true closes u in
      record {
        signed_in_counted = ground (arith, w.signed_in_counted, counted_in, none_in, d);
        signed_out_counted = ground (arith, w.signed_out_counted, counted_out, none_out, d);
        signed_in_fits = ground (arith, w.signed_in_fits);
        signed_out_fits = ground (arith, w.signed_out_fits);
        fair =
            All-set IsFair i s.uploads v
              (ended-IsFair closes u (All-nth IsFair i s.uploads u e w.fair)) w.fair;
      }

  choice-IsWell :
      (b : Bool) (s s' : Server)
      → (b ≡ true → IsWell config s)
      → (b ≡ false → IsWell config s')
      → IsWell config (if b then s else s')
  choice-IsWell true s s' h h' = h refl
  choice-IsWell false s s' h h' = h' refl

  while_draining-IsWell :
      (i : ℕ) (f : Upload → Server → Server) (s : Server)
      → IsWell config s
      → ((u : Upload) → nth i s.uploads ≡ some u → u.is_draining ≡ true → IsWell config (f u s))
      → IsWell config (while_draining i f s)
  unfolding while_draining
  while_draining-IsWell i f s w h = elim (Option-cases (nth i s.uploads)) [
    | inl q ↦ rw (while_draining, q) w
    | inr (u, q) ↦ rw (while_draining, q) (choice-IsWell u.is_draining (f u s) s (h u q) (λ d. w))
  ]

  abandon-IsWell : (i : ℕ) (s : Server) → IsWell config s → IsWell config (abandon i s)
  unfolding abandon
  abandon-IsWell i s w = while_draining-IsWell i _ s w (λ u e d. release-IsWell i true u s e d w)

  abandon_first-IsWell : (n : ℕ) (s : Server) → IsWell config s → IsWell config (abandon_first n s)
  unfolding abandon_first
  abandon_first-IsWell zero s w = w
  abandon_first-IsWell (suc n) s w = abandon-IsWell n _ (abandon_first-IsWell n s w)

  start_drain-weight :
      (pool : Bool) (now : ℕ) (declared : Option ℕ) (u : Upload)
      → weight pool (start_drain now declared u) ≡ weight pool (record u { is_draining = true })
  unfolding start_drain linger_briefly
  start_drain-weight true now declared u = ground arith
  start_drain-weight false now declared u = ground arith

  take_slot-IsWell :
      (declared : Option ℕ) (now : ℕ) (u : Upload) (s : Server)
      → IsFair u
      → has_room config s u ≡ true
      → IsWell config s
      → IsWell config (take_slot declared now u s)
  unfolding take_slot has_room
  take_slot-IsWell declared now u s f room w =
      let v = start_drain now declared u in
      record {
        signed_in_counted = ground (
          arith,
          w.signed_in_counted,
          slots_held-append false s.uploads v,
          start_drain-weight false now declared u,
        );
        signed_out_counted = ground (
          arith,
          w.signed_out_counted,
          slots_held-append true s.uploads v,
          start_drain-weight true now declared u,
        );
        signed_in_fits = ground (arith, w.signed_in_fits, room);
        signed_out_fits = ground (arith, w.signed_out_fits, room);
        fair =
            All-append IsFair s.uploads (v ∷ []) w.fair (start_drain-IsFair now declared u f, tt);
      }

  refuse-IsWell :
      (u : Upload) (s : Server)
      → IsFair u
      → u.is_draining ≡ false
      → IsWell config s
      → IsWell config (record s { uploads = s.uploads ++ close_connection u ∷ [] })
  refuse-IsWell u s f idle w =
      let v = close_connection u in
      record {
        signed_in_counted = ground (
          arith,
          w.signed_in_counted,
          slots_held-append false s.uploads v,
          close_connection-weight false u,
          idle,
        );
        signed_out_counted = ground (
          arith,
          w.signed_out_counted,
          slots_held-append true s.uploads v,
          close_connection-weight true u,
          idle,
        );
        signed_in_fits = w.signed_in_fits;
        signed_out_fits = w.signed_out_fits;
        fair = All-append IsFair s.uploads (v ∷ []) w.fair (close_connection-IsFair u f, tt);
      }

  admit-IsWell :
      (now : ℕ) (r : Unread) (u : Upload) (s : Server)
      → IsFair u
      → u.is_draining ≡ false
      → IsWell config s
      → IsWell config (admit config now r u s)
  unfolding admit
  admit-IsWell now r u s f idle w =
      elim (Bool-cases
        (r.close_unread || (s.is_closing || (leb u.linger_for 0 || not (has_room config s u))))) [
          | inl q ↦ rw (admit, q) (refuse-IsWell u s f idle w)
          | inr q ↦
              rw (admit, q) (take_slot-IsWell r.declared_length now u s f (ground (arith, q)) w)
        ]

  step-IsWell : (s : Server) (e : Event) → IsWell config s → IsWell config (step config s e)
  unfolding step opened
  step-IsWell s (prefinish now r) w =
      choice-IsWell r.is_complete s (admit config now r (opened config now r) s) (λ c. w)
        (λ c. admit-IsWell now r (opened config now r) s (opened-IsFair config now r) refl w)
  step-IsWell s (finish i) w = elim (Option-cases (nth i s.uploads)) [
    | inl q ↦ rw (step, q) w
    | inr (u, q) ↦
        rw (step, q)
          (put_upload-IsWell i u (write_response u) s q
            (write_response-IsFair u (All-nth IsFair i s.uploads u q w.fair))
            (λ pool. write_response-weight pool u) w)
  ]
  step-IsWell s (chunk i now n) w = while_draining-IsWell i _ s w (λ u e d.
      put_upload-IsWell i u (take_chunk now n u) s e
        (take_chunk-IsFair now n u (All-nth IsFair i s.uploads u e w.fair))
        (λ pool. take_chunk-weight pool now n u) w)
  step-IsWell s (timers_due i now) w = while_draining-IsWell i _ s w (λ u e d.
      choice-IsWell (is_due now u) (release i true u s) s (λ q. release-IsWell i true u s e d w)
        (λ q. w))
  step-IsWell s (stopped i) w =
      while_draining-IsWell i _ s w (λ u e d. release-IsWell i false u s e d w)
  step-IsWell s pre_close w =
      abandon_first-IsWell (length s.uploads) (record s { is_closing = true })
        (record {
          signed_in_counted = w.signed_in_counted;
          signed_out_counted = w.signed_out_counted;
          signed_in_fits = w.signed_in_fits;
          signed_out_fits = w.signed_out_fits;
          fair = w.fair;
        })

  run-IsWell_from :
      (s : Server) (es : List Event) → IsWell config s → IsWell config (run config s es)
  unfolding run
  run-IsWell_from s [] w = w
  run-IsWell_from s (e ∷ es) w = run-IsWell_from (step config s e) es (step-IsWell s e w)

  -- Whatever happens, each pool counts exactly the drains that hold a slot of it and has at most its
  -- slots; and of each upload the socket is destroyed only after its response was written, more
  -- than the byte cap is discarded only as oversize, and the linger time is at most 5 seconds, 1
  -- where the sender is signed out.
  pub run-IsWell : (es : List Event) → IsWell config (run config idle_server es)
  run-IsWell es = run-IsWell_from idle_server es (record {
    signed_in_counted = refl;
    signed_out_counted = refl;
    signed_in_fits = omega arith;
    signed_out_fits = omega arith;
    fair = tt;
  })
