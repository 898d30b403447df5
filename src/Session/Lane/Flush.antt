-- ===== src/Session/Lane/Flush.antt =====
-- The order of the frames at every point of a session, and what `Flush` may conclude from it.
use mathlib.Core.Path.{refl}
use aii_plugin_sdk.Prelude.{Bool, arith, false, if_rule, subst, sym, true, ℕ, ◌+◌, ◌<◌, ◌≡◌, ◌≤◌}
use aii_plugin_sdk.Session.Lane.{
  Lane, Outcome, Reachable, Writer, admits, answers, end_lane, ends, enqueues, faults, flushed,
  give_up, gives_up, held, is_free, record_fault, records, released, sending, set_fault, settle,
  settles, stays, steps, take_frame, taken, takes, waiting, write_from, write_step, writes,
  wrote_out, ◌⟶◌,
}
use aii_plugin_sdk.Session.Lane.Order.{
  Before, Descending, Descending-weaken, Numbered, Ordered, Settled, unsent_from,
}
use aii_plugin_sdk.Session.Lane.Line.{
  InLine, admits-InLine, answers-InLine, fresh-InLine, gives_up-Ordered, takes-InLine,
  try_enqueue-InLine, writes-Ordered,
}

with_order :
    (s s' : Lane) (i : InLine s)
    → s'.queued ≡ s.queued
    → s'.out_q ≡ s.out_q
    → Ordered i.first s'
    → InLine s'
with_order s s' i e f o = record {
  first = i.first;
  numbered = subst (Numbered i.first) (sym f) i.numbered;
  up_to = let u = i.up_to in rw (e, f) u;
  ordered = o;
}

abbrev SameQueue : Lane → Lane → Type 0
SameQueue s s' = (s'.queued ≡ s.queued) × (s'.out_q ≡ s.out_q)

write_from-SameQueue :
    (s : Lane) (written : Bool) (w : Writer) → SameQueue s (write_from s written w)
unfolding write_from set_fault record_fault end_lane
write_from-SameQueue s written waiting = (refl, refl)
write_from-SameQueue s written (taken ob) = (refl, refl)
write_from-SameQueue s written (released ob) =
    if_rule (SameQueue s) (is_free (s.claims ob.seq)) (refl, refl) (refl, refl)
write_from-SameQueue s written (held ob) = (refl, refl)
write_from-SameQueue s written (sending ob) =
    if_rule (SameQueue s) written (refl, refl) (refl, refl)
write_from-SameQueue s written (wrote_out ob owed) = (refl, refl)

give_up-SameQueue : (s : Lane) (k : ℕ) → SameQueue s (give_up s k).0
unfolding give_up
give_up-SameQueue s k =
    if_rule (λ (p : Lane × Outcome). SameQueue s p.0) (is_free (s.claims k)) (refl, refl)
      (refl, refl)

writes-InLine : (s : Lane) (written : Bool) → InLine s → InLine (write_from s written s.writer)
writes-InLine s written i =
    let (e, f) = write_from-SameQueue s written s.writer in
    with_order s (write_from s written s.writer) i e f
      (writes-Ordered i.first s written s.writer i.ordered i.ordered)

gives_up-InLine : (s : Lane) (k : ℕ) → InLine s → InLine (give_up s k).0
gives_up-InLine s k i =
    let (e, f) = give_up-SameQueue s k in
    with_order s (give_up s k).0 i e f (gives_up-Ordered i.first s k i.ordered)

⟶-InLine : {s s' : Lane} → s ⟶ s' → InLine s → InLine s'
unfolding take_frame write_step set_fault record_fault end_lane settle
⟶-InLine (enqueues {s}) i = try_enqueue-InLine s false i
⟶-InLine (admits {s}) i = admits-InLine s i
⟶-InLine (answers {s}) i = answers-InLine s i
⟶-InLine (takes {s}) i = takes-InLine s s.writer s.out_q i i
⟶-InLine (writes {s} written) i = writes-InLine s written i
⟶-InLine (gives_up {s} k _) i = gives_up-InLine s k i
⟶-InLine records i = i
⟶-InLine faults i = i
⟶-InLine ends i = i
⟶-InLine settles i = i

Reachable-InLine : {s : Lane} → Reachable s → InLine s
Reachable-InLine stays = fresh-InLine
Reachable-InLine (steps r t) = ⟶-InLine t (Reachable-InLine r)

-- When `Flush` returns nil for a target, every frame that was accepted up to the target was taken
-- by the transport, or given up by the host call that waited for it.
pub flushed-Settled :
    {s : Lane} (target k : ℕ)
    → Reachable s
    → flushed s target ≡ true
    → 0 < k
    → k ≤ target
    → Settled s.claims s.sent k
flushed-Settled target k r f l h =
    let o = (Reachable-InLine r).ordered in o.settled k l (ground arith)

unsent_from-le : (n : ℕ) (w : Writer) → Before n w → unsent_from n w ≤ n
unsent_from-le n waiting b = omega arith
unsent_from-le n (taken ob) b = omega arith
unsent_from-le n (released ob) b = omega arith
unsent_from-le n (held ob) b = omega arith
unsent_from-le n (sending ob) b = omega arith
unsent_from-le n (wrote_out ob owed) b = omega arith

-- Frames reach the transport in the order in which they were accepted, each at most once, and none
-- that was not accepted: the numbers of those sent descend, the last sent first, from the last that
-- was given to an accepted frame.
pub sent-Descending : {s : Lane} → Reachable s → Descending (s.queued + 1) s.sent
sent-Descending {s} r =
    let i = Reachable-InLine r in
    let u = i.up_to in
    let o = i.ordered in
    Descending-weaken (unsent_from i.first s.writer) (s.queued + 1) s.sent
      (omega (arith, unsent_from-le i.first s.writer o.before)) o.ascending
