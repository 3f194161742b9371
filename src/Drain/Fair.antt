-- ===== src/Drain/Fair.antt =====
-- What each operation keeps of one upload.
use ferrum_foundry.Prelude.{
  ℕ, ◌+◌, ◌≤◌, Bool, true, false, not, ◌&&◌, ◌||◌, Option, ◌≡◌, refl, arith, if◌then◌else◌, leb,
  ltb, Bool-cases, inl, inr,
}
use ferrum_foundry.Drain.{
  Config, Unread, Upload, drain_byte_cap, close_connection, write_response, linger_briefly,
  is_over_cap, linger_of, opened, start_drain, take_chunk,
}
use ferrum_foundry.Drain.Slots.{weight}

-- One upload: its socket is destroyed only after its response was written, what it discarded is
-- within the cap unless it is oversize, and it lingers for at most 5 seconds, 1 when signed out.
pub record IsFair (u : Upload) : Type 0 where
  pub written_first : (u.is_destroyed && not u.response_written) ≡ false
  pub within_cap : (leb u.drained drain_byte_cap || u.is_oversize) ≡ true
  pub brief : u.linger_for ≤ (if u.is_signed_out then 1000 else 5000)

pub close_connection-IsFair : (u : Upload) → IsFair u → IsFair (close_connection u)
unfolding close_connection
close_connection-IsFair u f = elim (Bool-cases u.response_written) [
  | inl q ↦ rw q (record { written_first = refl; within_cap = f.within_cap; brief = f.brief })
  | inr q ↦ rw q (record {
    written_first = ground (arith, q, f.written_first);
    within_cap = f.within_cap;
    brief = f.brief;
  })
]

pub write_response-IsFair : (u : Upload) → IsFair u → IsFair (write_response u)
unfolding write_response
write_response-IsFair u f = record {
  written_first = ground arith;
  within_cap = f.within_cap;
  brief = f.brief;
}

pub linger_briefly-IsFair :
    (now : ℕ) (u : Upload)
    → (u.is_destroyed && not u.response_written) ≡ false
    → u.linger_for ≤ (if u.is_signed_out then 1000 else 5000)
    → IsFair (linger_briefly now u)
unfolding linger_briefly
linger_briefly-IsFair now u w b = record { written_first = w; within_cap = ground arith; brief = b }

pub take_chunk-IsFair : (now n : ℕ) (u : Upload) → IsFair u → IsFair (take_chunk now n u)
unfolding take_chunk
take_chunk-IsFair now n u f =
    elim (Bool-cases (not u.is_oversize && ltb drain_byte_cap (u.drained + n))) [
      | inl q ↦ rw q (linger_briefly-IsFair now _ f.written_first f.brief)
      | inr q ↦ rw q (record {
        written_first = f.written_first;
        within_cap = ground (arith, q);
        brief = f.brief;
      })
    ]

pub opened-IsFair : (config : Config) (now : ℕ) (r : Unread) → IsFair (opened config now r)
unfolding opened linger_of
opened-IsFair config now r = record {
  written_first = refl;
  within_cap = ground arith;
  brief = ground arith;
}

pub start_drain-IsFair :
    (now : ℕ) (declared : Option ℕ) (u : Upload) → IsFair u → IsFair (start_drain now declared u)
unfolding start_drain
start_drain-IsFair now declared u f = elim (Bool-cases (is_over_cap declared)) [
  | inl q ↦ rw q (linger_briefly-IsFair now _ f.written_first f.brief)
  | inr q ↦
      rw q (record { written_first = f.written_first; within_cap = f.within_cap; brief = f.brief })
]

pub close_connection-weight :
    (pool : Bool) (u : Upload) → weight pool (close_connection u) ≡ weight pool u
unfolding close_connection
close_connection-weight true u = ground arith
close_connection-weight false u = ground arith

pub take_chunk-weight :
    (pool : Bool) (now n : ℕ) (u : Upload) → weight pool (take_chunk now n u) ≡ weight pool u
unfolding take_chunk linger_briefly
take_chunk-weight true now n u = ground arith
take_chunk-weight false now n u = ground arith

pub write_response-weight :
    (pool : Bool) (u : Upload) → weight pool (write_response u) ≡ weight pool u
unfolding write_response
write_response-weight true u = refl
write_response-weight false u = refl
