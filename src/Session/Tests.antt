-- ===== src/Session/Tests.antt =====
-- The theorems on the lane at concrete runs.
use mathlib.Core.Path.{refl}
use aii_plugin_sdk.Prelude.{
  [], arith, false, length, some, suc, true, zero, ℕ, ◌+◌, ◌<◌, ◌∷◌, ◌≡◌, ◌≢◌, ◌≤◌,
}
use aii_plugin_sdk.Session.Lane.{
  Lane, Reachable, admit_one, admits, call_not_sent, enqueues, flushed, fresh, give_up, queue_full,
  stays, steps, take_frame, takes, try_enqueue, write_step, writes,
}
use aii_plugin_sdk.Session.Lane.Claims.{has}
use aii_plugin_sdk.Session.Lane.GivenUp.{give_up-unsent}
use aii_plugin_sdk.Session.Lane.Room.{answer-room}
use aii_plugin_sdk.Session.Lane.Order.{Descending, Settled}
use aii_plugin_sdk.Session.Pending.History.{
  behind_events, behind_events-first_reply, call_enters, call_leaves, first_reply, reply_comes,
}
use aii_plugin_sdk.Session.Pending.{
  Pending, SessionReply, Tables-bounded, enter, enters, no_calls, received, session_max_pending,
  with_call,
}
use aii_plugin_sdk.Session.Lane.Flush.{flushed-Settled, sent-Descending}

-- One frame is accepted, and taken by the writer.
abbrev queued_one : Lane
queued_one = (try_enqueue fresh false).0

abbrev taken_one : Lane
taken_one = take_frame queued_one

abbrev after_writes : ℕ → Lane → Lane
after_writes zero s = s
after_writes (suc n) s = write_step (after_writes n s) true

abbrev sent_one : Lane
sent_one = after_writes 5 taken_one

queued_one-Reachable : Reachable queued_one
queued_one-Reachable = steps stays enqueues

after_writes-Reachable : (n : ℕ) (s : Lane) → Reachable s → Reachable (after_writes n s)
after_writes-Reachable zero s r = r
after_writes-Reachable (suc n) s r = steps (after_writes-Reachable n s r) (writes true)

sent_one-Reachable : Reachable sent_one
sent_one-Reachable = after_writes-Reachable 5 taken_one (steps queued_one-Reachable takes)

one_accepted : queued_one.queued ≡ 1
unfolding try_enqueue fresh
one_accepted = refl

given_up : (give_up queued_one 1).1 ≡ call_not_sent
unfolding give_up try_enqueue fresh
given_up = refl

give_up-unsent_example : has 1 (after_writes 4 (take_frame (give_up queued_one 1).0)).sent ≡ false
give_up-unsent_example =
    give_up-unsent 1 queued_one-Reachable (omega (arith, one_accepted)) given_up (
      steps (steps (steps (steps (steps stays takes) (writes true)) (writes true)) (writes true))
        (writes true))

one_flushed : flushed sent_one 1 ≡ true
unfolding write_step take_frame try_enqueue fresh
one_flushed = refl

flushed-Settled_example : Settled sent_one.claims sent_one.sent 1
flushed-Settled_example =
    flushed-Settled 1 1 sent_one-Reachable one_flushed (omega arith) (omega arith)

sent-Descending_example : Descending (sent_one.queued + 1) sent_one.sent
sent-Descending_example = sent-Descending sent_one-Reachable

abbrev one_control : Lane
one_control = (admit_one queued_one).0

one_open : 0 < one_control.open_controls
unfolding admit_one try_enqueue fresh
one_open = omega arith

answer-room_example :
    (length one_control.out_q ≤ 128)
    × (one_control.slots ≤ 64)
    × ((try_enqueue one_control true).1 ≢ some queue_full)
answer-room_example = answer-room (steps queued_one-Reachable admits) one_open

abbrev no_pending : Pending
no_pending = record { next_id = 0; calls = [] }

abbrev one_pending : Pending
one_pending = with_call 1 no_pending

one_entered : enter no_pending ≡ some (1, one_pending)
unfolding enter
one_entered = refl

Tables-bounded_example : length one_pending.calls ≤ session_max_pending
Tables-bounded_example = Tables-bounded (enters no_calls one_entered)

abbrev yes : SessionReply
yes = record { result = 1 ∷ []; err_obj = [] }

abbrev no : SessionReply
no = record { result = []; err_obj = 1 ∷ [] }

behind_events-first_reply_example :
    received 1
      (behind_events
        (call_enters ∷ reply_comes 2 no ∷ call_leaves 2 ∷ reply_comes 1 yes ∷ reply_comes 1 no ∷ [])
        one_pending).calls
    ≡ first_reply 1
        (call_enters ∷ reply_comes 2 no ∷ call_leaves 2 ∷ reply_comes 1 yes ∷ reply_comes 1 no ∷ [])
behind_events-first_reply_example =
    behind_events-first_reply no_pending one_pending 1
      (call_enters ∷ reply_comes 2 no ∷ call_leaves 2 ∷ reply_comes 1 yes ∷ reply_comes 1 no ∷ [])
      one_entered ((λ e. absurd (omega (arith, e))), tt) (omega arith)
