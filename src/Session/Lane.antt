-- ===== src/Session/Lane.antt =====
-- The outbound lane of pkg/aiiosdk/session.go: the queue that senders fill, the writer that empties
-- it, and the flags that end it. Each operation below runs at once in the source, under a mutex or
-- as one atomic or channel operation; what runs between two of them is another step.
pub mod Room
pub mod Claims
pub mod GivenUp
pub mod Order
pub mod Line
pub mod Flush
use aii_plugin_sdk.Prelude.{
  Bool, List, Option, [], false, if◌then◌else◌, leb, length, ltb, none, some, true, ℕ, ◌&&◌, ◌++◌,
  ◌+◌, ◌-◌, ◌==◌, ◌||◌, ◌∷◌, ◌≤◌,
}

abbrev pub session_admit_queue : ℕ
session_admit_queue = 64

abbrev pub session_out_queue : ℕ
session_out_queue = 64 + session_admit_queue

-- `outbound`. `release` is whether it has one: it does exactly if it answers a control. The frame's
-- bytes are not looked at by the lane, so a frame is known by its number.
pub record Outbound : Type 0 where
  pub seq : ℕ
  pub release : Bool

-- Who has set `claimed` of a frame: nobody, the writer, or a host call that gave it up.
pub data Claim : Type 0 where
  unclaimed by_writer by_caller : Claim

-- Where the writer stands: waiting for a frame; before `release`; before the claim; before the
-- test of the fault; before the write; and before `wrote` is brought up to date, with what `write`
-- returned.
pub data Writer : Type 0 where
  waiting : Writer
  taken released held sending : Outbound → Writer
  wrote_out : Outbound → Bool → Writer

-- `Session`, as far as the lane uses it. `out_q` is `outQ`, its first frame the next to be taken;
-- `slots` is how many of `admissionSlots` are taken; `open_controls` is how many controls that took
-- one are not answered yet; `sent` is the frames that the transport took, the last first.
pub record Lane : Type 0 where
  pub out_q : List Outbound
  pub writer : Writer
  pub claims : ℕ → Claim
  pub queued : ℕ
  pub wrote : ℕ
  pub sent : List ℕ
  pub slots : ℕ
  pub open_controls : ℕ
  pub fault : Bool
  pub closed : Bool
  pub out_closed : Bool

-- `serveSession` before its first frame.
unfoldable pub fresh : Lane
fresh = record {
  out_q = [];
  writer = waiting;
  claims = λ k. unclaimed;
  queued = 0;
  wrote = 0;
  sent = [];
  slots = 0;
  open_controls = 0;
  fault = false;
  closed = false;
  out_closed = false;
}

pub data Refusal : Type 0 where
  not_sent queue_full : Refusal

-- The end of `tryEnqueue`, from `ob.seq = s.queued + 1` on.
pub put : Lane → Bool → Lane × Option Refusal
put s admission =
    if ltb (length s.out_q) session_out_queue
    then (
      record s {
        out_q = s.out_q ++ (record { seq = s.queued + 1; release = admission } ∷ []);
        queued = s.queued + 1;
      },
      none,
    )
    else (s, some queue_full)

-- `tryEnqueue`.
unfoldable pub try_enqueue : Lane → Bool → Lane × Option Refusal
unfolding put
try_enqueue s admission =
    if s.out_closed || s.fault
    then (s, some not_sent)
    else if admission
    then put s admission
    else if s.closed
    then (s, some not_sent)
    else if leb (session_out_queue - session_admit_queue) (length s.out_q)
    then (s, some queue_full)
    else put s admission

-- `admitOne`: whether the control was admitted.
unfoldable pub admit_one : Lane → Lane × Bool
admit_one s =
    if ltb s.slots session_admit_queue
    then (record s { slots = s.slots + 1; open_controls = s.open_controls + 1 }, true)
    else (s, false)

-- The first half of `setFault`.
unfoldable pub record_fault : Lane → Lane
record_fault s = record s { fault = true }

-- `end`: the lane of `serveSession` has its `settled`, so it only closes it.
unfoldable pub end_lane : Lane → Lane
end_lane s = record s { closed = true }

-- `setFault`.
unfoldable pub set_fault : Lane → Lane
unfolding record_fault end_lane
set_fault s = end_lane (record_fault s)

-- Once every admission handler has returned.
unfoldable pub settle : Lane → Lane
settle s = record s { out_closed = true }

-- `Control.Answer` of a control that was not answered: a refusal gives its slot back, and one that
-- is not "not sent" ends the lane.
pub answered : Lane × Option Refusal → Lane
unfolding set_fault
answered (s, none) = s
answered (s, some not_sent) = record s { slots = s.slots - 1 }
answered (s, some queue_full) = set_fault (record s { slots = s.slots - 1 })

unfoldable pub answer : Lane → Lane
unfolding try_enqueue answered
answer s =
    if s.open_controls == 0
    then s
    else answered (try_enqueue (record s { open_controls = s.open_controls - 1 }) true)

-- The writer takes the first frame, `ob := <-s.outQ`.
unfoldable pub take_from : Lane → Writer → List Outbound → Lane
take_from s waiting (ob ∷ q) = record s { out_q = q; writer = taken ob }
take_from s _ _ = s

unfoldable pub take_frame : Lane → Lane
unfolding take_from
take_frame s = take_from s s.writer s.out_q

-- Sets one frame's flag.
pub claim : ℕ → Claim → (ℕ → Claim) → ℕ → Claim
claim k c claims j = if j == k then c else claims j

abbrev pub is_free : Claim → Bool
is_free unclaimed = true
is_free _ = false

-- The steps of `writeQueued` and `write`; `written` is whether `WriteFrame` succeeds.
unfoldable pub write_from : Lane → Bool → Writer → Lane
unfolding claim set_fault
write_from s written waiting = s
write_from s written (taken ob) = record s {
  writer = released ob;
  slots = if ob.release then s.slots - 1 else s.slots;
}
write_from s written (released ob) =
    if is_free (s.claims ob.seq)
    then record s { writer = held ob; claims = claim ob.seq by_writer s.claims }
    else record s { writer = wrote_out ob true }
write_from s written (held ob) = record s {
  writer = if s.fault then wrote_out ob false else sending ob;
}
write_from s written (sending ob) =
    if written
    then record s { writer = wrote_out ob true; sent = ob.seq ∷ s.sent }
    else record (set_fault s) { writer = wrote_out ob false }
write_from s written (wrote_out ob owed_nothing) = record s {
  writer = waiting;
  wrote = if owed_nothing && s.wrote + 1 == ob.seq then ob.seq else s.wrote;
}

unfoldable pub write_step : Lane → Bool → Lane
unfolding write_from
write_step s written = write_from s written s.writer

-- What a host call reports that stops waiting for its frame to be written.
pub data Outcome : Type 0 where
  call_not_sent outcome_unknown : Outcome

-- The branches `<-ctx.Done()` and `<-s.closed` of the first wait of `HostCallTo`, for frame `k`.
unfoldable pub give_up : Lane → ℕ → Lane × Outcome
unfolding claim
give_up s k =
    if is_free (s.claims k)
    then (record s { claims = claim k by_caller s.claims }, call_not_sent)
    else (s, outcome_unknown)

-- `Flush` returns nil for this target.
abbrev pub flushed : Lane → ℕ → Bool
flushed s target = leb target s.wrote

-- One step of the lane. Only a frame that was accepted is given up. `setFault` is two steps where
-- others come between its halves.
pub data ◌⟶◌ : Lane → Lane → Type 0 where
  enqueues : {s : Lane} → s ⟶ (try_enqueue s false).0
  admits : {s : Lane} → s ⟶ (admit_one s).0
  answers : {s : Lane} → s ⟶ answer s
  takes : {s : Lane} → s ⟶ take_frame s
  writes : {s : Lane} (written : Bool) → s ⟶ write_step s written
  gives_up : {s : Lane} (k : ℕ) → k ≤ s.queued → s ⟶ (give_up s k).0
  records : {s : Lane} → s ⟶ record_fault s
  faults : {s : Lane} → s ⟶ set_fault s
  ends : {s : Lane} → s ⟶ end_lane s
  settles : {s : Lane} → s ⟶ settle s

infix 4 ◌⟶◌ ◌⟶*◌
pub data ◌⟶*◌ : Lane → Lane → Type 0 where
  stays : {s : Lane} → s ⟶* s
  steps : {s s' s'' : Lane} → s ⟶* s' → s' ⟶ s'' → s ⟶* s''

-- The lanes that a session comes to.
abbrev pub Reachable : Lane → Type 0
Reachable s = fresh ⟶* s
