-- ===== src/Drain.antt =====
-- src/server/upload-drain.ts: the discarding of uploads that a reply no longer needs, as a function
-- of what happens. A request is named by its place in the list of those that left a body unread; a
-- time is in milliseconds, and a timer is the time at which it is due.
pub mod Slots
pub mod Fair
pub mod Pools
pub mod Still
pub mod Closing
mod Tests
use ferrum_foundry.Prelude.{
  ℕ, zero, suc, ◌+◌, ◌*◌, ◌-◌, min, Bool, true, false, not, ◌&&◌, ◌||◌, List, [], ◌∷◌, ◌++◌, Option,
  none, some, if◌then◌else◌, leb, ltb, length,
}

abbrev pub drain_linger_ms : ℕ
drain_linger_ms = 5000

abbrev pub drain_oversize_linger_ms : ℕ
drain_oversize_linger_ms = 1000

abbrev pub drain_byte_cap : ℕ
drain_byte_cap = 4 * 1024 * 1024

abbrev pub signed_out_drain_slots : ℕ
signed_out_drain_slots = 8

abbrev pub signed_out_drain_linger_ms : ℕ
signed_out_drain_linger_ms = 1000

-- What loadConfig answers.
pub record Config : Type 0 where
  pub max_active_uploads : ℕ
  pub write_timeout : ℕ

-- A request whose reply is about to go out, as drainUnreadUpload finds it.
pub record Unread : Type 0 where
  pub is_complete : Bool  -- the body was read, or there is no socket to drain
  pub is_signed_out : Bool
  pub budget_ends_at : ℕ
  pub close_unread : Bool
  pub declared_length : Option ℕ

-- What a route does to its request before the reply, where the request declared a body.
unfoldable pub set_upload_budget : ℕ → Unread → Unread
set_upload_budget ends r = record r { budget_ends_at = ends }

unfoldable pub close_unread_upload : Unread → Unread
close_unread_upload r = record r { close_unread = true }

-- A request from then on: the variables of its closures.
pub record Upload : Type 0 where
  pub is_signed_out : Bool
  pub is_draining : Bool  -- a slot is taken, and not settled
  pub started : ℕ
  pub linger_for : ℕ
  pub idle_timeout : ℕ
  pub drained : ℕ
  pub is_oversize : Bool
  pub deadline : ℕ
  pub idle_at : ℕ
  pub response_written : Bool
  pub close_when_written : Bool
  pub is_destroyed : Bool

pub record Server : Type 0 where
  pub signed_in_active : ℕ
  pub signed_out_active : ℕ
  pub is_closing : Bool
  pub uploads : List Upload

pub data Event : Type 0 where
  prefinish : ℕ → Unread → Event
  finish : ℕ → Event
  chunk : ℕ → ℕ → ℕ → Event  -- of which request, when, and how many bytes
  timers_due : ℕ → ℕ → Event  -- of which request, and when
  stopped : ℕ → Event  -- the body ended or failed, or the socket closed
  pre_close : Event

unfoldable pub close_connection : Upload → Upload
close_connection u =
    if u.response_written
    then record u { is_destroyed = true }
    else record u { close_when_written = true }

unfoldable pub write_response : Upload → Upload
write_response u = record u {
  response_written = true;
  is_destroyed = u.is_destroyed || u.close_when_written;
}

unfoldable pub linger_briefly : ℕ → Upload → Upload
linger_briefly now u = record u {
  is_oversize = true;
  deadline = now + min (u.linger_for - (now - u.started)) drain_oversize_linger_ms;
}

unfoldable pub is_over_cap : Option ℕ → Bool
is_over_cap none = false
is_over_cap (some n) = ltb drain_byte_cap n

unfoldable pub linger_of : ℕ → Unread → ℕ
linger_of now r =
    min (r.budget_ends_at - now)
      (if r.is_signed_out then signed_out_drain_linger_ms else drain_linger_ms)

-- the upload at `prefinish`, before it is known whether it drains
unfoldable pub opened : Config → ℕ → Unread → Upload
opened config now r = record {
  is_signed_out = r.is_signed_out;
  is_draining = false;
  started = now;
  linger_for = linger_of now r;
  idle_timeout = min config.write_timeout (linger_of now r);
  drained = 0;
  is_oversize = false;
  deadline = now + linger_of now r;
  idle_at = now + min config.write_timeout (linger_of now r);
  response_written = false;
  close_when_written = false;
  is_destroyed = false;
}

unfoldable pub start_drain : ℕ → Option ℕ → Upload → Upload
start_drain now declared u =
    let v = record u { is_draining = true } in
    if is_over_cap declared then linger_briefly now v else v

unfoldable pub take_chunk : ℕ → ℕ → Upload → Upload
take_chunk now n u =
    let v = record u { drained = u.drained + n; idle_at = now + u.idle_timeout } in
    if not u.is_oversize && ltb drain_byte_cap (u.drained + n) then linger_briefly now v else v

unfoldable pub is_due : ℕ → Upload → Bool
is_due now u = leb u.deadline now || leb u.idle_at now

unfoldable pub nth : ℕ → List Upload → Option Upload
nth i [] = none
nth zero (u ∷ us) = some u
nth (suc i) (u ∷ us) = nth i us

unfoldable pub set : ℕ → Upload → List Upload → List Upload
set i v [] = []
set zero v (u ∷ us) = v ∷ us
set (suc i) v (u ∷ us) = u ∷ set i v us

unfoldable pub put_upload : ℕ → Upload → Server → Server
put_upload i u s = record s { uploads = set i u s.uploads }

-- `settle` of a drain that is not settled, and `abandon` where the connection is closed too
unfoldable pub release : ℕ → Bool → Upload → Server → Server
release i closes u s =
    let v = record u { is_draining = false } in
    record s {
      signed_in_active = if u.is_signed_out then s.signed_in_active else s.signed_in_active - 1;
      signed_out_active = if u.is_signed_out then s.signed_out_active - 1 else s.signed_out_active;
      uploads = set i (if closes then close_connection v else v) s.uploads;
    }

-- what happens to an upload only while it drains
unfoldable pub while_draining : ℕ → (Upload → Server → Server) → Server → Server
while_draining i f s = elim (nth i s.uploads) [
  | none ↦ s
  | some u ↦ if u.is_draining then f u s else s
]

unfoldable pub abandon : ℕ → Server → Server
abandon i s = while_draining i (release i true) s

-- the loop of preClose, over so many of the uploads
unfoldable pub abandon_first : ℕ → Server → Server
abandon_first zero s = s
abandon_first (suc n) s = abandon n (abandon_first n s)

unfoldable pub has_room : Config → Server → Upload → Bool
has_room config s u =
    if u.is_signed_out
    then ltb s.signed_out_active (min signed_out_drain_slots config.max_active_uploads)
    else ltb s.signed_in_active config.max_active_uploads

unfoldable pub take_slot : Option ℕ → ℕ → Upload → Server → Server
take_slot declared now u s = record s {
  signed_in_active = if u.is_signed_out then s.signed_in_active else s.signed_in_active + 1;
  signed_out_active = if u.is_signed_out then s.signed_out_active + 1 else s.signed_out_active;
  uploads = s.uploads ++ start_drain now declared u ∷ [];
}

-- a new upload, drained or closed once its response is out
unfoldable pub admit : Config → ℕ → Unread → Upload → Server → Server
admit config now r u s =
    if r.close_unread || (s.is_closing || (leb u.linger_for 0 || not (has_room config s u)))
    then record s { uploads = s.uploads ++ close_connection u ∷ [] }
    else take_slot r.declared_length now u s

unfoldable pub step : Config → Server → Event → Server
step config s (prefinish now r) =
    if r.is_complete then s else admit config now r (opened config now r) s
step config s (finish i) = elim (nth i s.uploads) [
  | none ↦ s
  | some u ↦ put_upload i (write_response u) s
]
step config s (chunk i now n) = while_draining i (λ u. put_upload i (take_chunk now n u)) s
step config s (timers_due i now) =
    while_draining i (λ u s'. if is_due now u then release i true u s' else s') s
step config s (stopped i) = while_draining i (release i false) s
step config s pre_close = abandon_first (length s.uploads) (record s { is_closing = true })

unfoldable pub run : Config → Server → List Event → Server
run config s [] = s
run config s (e ∷ es) = run config (step config s e) es

abbrev pub idle_server : Server
idle_server = record {
  signed_in_active = 0;
  signed_out_active = 0;
  is_closing = false;
  uploads = [];
}
