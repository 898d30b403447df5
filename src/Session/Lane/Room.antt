-- ===== src/Session/Lane/Room.antt =====
-- There is always room for the answer to a control.
use mathlib.Core.Path.{refl}
use aii_plugin_sdk.Prelude.{
  Bool, List, Option, [], arith, false, if_cases, if◌then◌else◌, leb, length, ltb, some, true, ℕ,
  ◌++◌, ◌+◌, ◌-◌, ◌<◌, ◌==◌, ◌||◌, ◌∷◌, ◌≡◌, ◌≢◌, ◌≤◌,
}
use aii_plugin_sdk.Session.Lane.{
  Lane, Outbound, Outcome, Reachable, Refusal, Writer, admit_one, admits, answer, answered, answers,
  end_lane, ends, enqueues, faults, fresh, give_up, gives_up, held, is_free, put, queue_full,
  record_fault, records, released, sending, session_admit_queue, session_out_queue, set_fault,
  settle, settles, stays, steps, take_frame, take_from, taken, takes, try_enqueue, waiting,
  write_from, write_step, writes, wrote_out, ◌⟶◌,
}

-- The queued answers, and the other queued frames.
abbrev pub answers_in : List Outbound → ℕ
answers_in [] = 0
answers_in (ob ∷ q) = (if ob.release then 1 else 0) + answers_in q

abbrev pub others_in : List Outbound → ℕ
others_in [] = 0
others_in (ob ∷ q) = (if ob.release then 0 else 1) + others_in q

-- The slot that the writer is to give back.
abbrev pub in_hand : Writer → ℕ
in_hand (taken ob) = if ob.release then 1 else 0
in_hand _ = 0

length-answers_in : (q : List Outbound) → length q ≡ answers_in q + others_in q
length-answers_in [] = refl
length-answers_in (ob ∷ q) = ground (arith, length-answers_in q)

answers_in-append : (q r : List Outbound) → answers_in (q ++ r) ≡ answers_in q + answers_in r
answers_in-append [] r = omega arith
answers_in-append (ob ∷ q) r = ground (arith, answers_in-append q r)

others_in-append : (q r : List Outbound) → others_in (q ++ r) ≡ others_in q + others_in r
others_in-append [] r = omega arith
others_in-append (ob ∷ q) r = ground (arith, others_in-append q r)

-- Every slot that is taken is owed by an open control, a queued answer or the writer.
pub record RoomAt (open_controls slots : ℕ) (w : Writer) (q : List Outbound) : Type 0 where
  pub slots_owned : open_controls + answers_in q + in_hand w ≡ slots
  pub slots_bound : slots ≤ 64
  pub others_bound : others_in q ≤ 64

abbrev pub Room : Lane → Type 0
Room s = RoomAt s.open_controls s.slots s.writer s.out_q

fresh-Room : Room fresh
unfolding fresh
fresh-Room = record { slots_owned = refl; slots_bound = omega arith; others_bound = omega arith }

Room-length : (s : Lane) → Room s → length s.out_q + s.open_controls ≤ 128
Room-length s r =
    let o = r.slots_owned in
    let b = r.slots_bound in let c = r.others_bound in omega (arith, length-answers_in s.out_q)

RoomAt-append :
    {n m slots : ℕ} {w : Writer} {q : List Outbound} (ob : Outbound)
    → RoomAt m slots w q
    → n + (if ob.release then 1 else 0) ≡ m
    → (if ob.release then 0 else length q) < 64
    → RoomAt n slots w (q ++ (ob ∷ []))
RoomAt-append {q = q} ob r h k =
    let o = r.slots_owned in
    let b = r.slots_bound in
    let c = r.others_bound in
    let x = answers_in-append q (ob ∷ []) in
    let y = others_in-append q (ob ∷ []) in
    let z = length-answers_in q in
    record { slots_owned = ground arith; slots_bound = b; others_bound = ground arith }

put-Room :
    (s : Lane) (n : ℕ) (admission : Bool)
    → RoomAt n s.slots s.writer s.out_q
    → s.open_controls + (if admission then 1 else 0) ≡ n
    → (if admission then 0 else length s.out_q) < 64
    → length s.out_q < 128
    → Room (put s admission).0
unfolding put
put-Room s n admission r h k fits =
    if_cases (λ (p : Lane × Option Refusal). Room p.0) (ltb (length s.out_q) session_out_queue)
      (λ e. RoomAt-append (record { seq = s.queued + 1; release = admission }) r h k)
      (λ e. absurd (ground arith))

enqueues-Room : (s : Lane) → Room s → Room (try_enqueue s false).0
unfolding try_enqueue
enqueues-Room s r =
    let P : Lane × Option Refusal → Type 0 = λ p. Room p.0 in
    if_cases P (s.out_closed || s.fault) (λ e. r)
      (λ e.
        if_cases P s.closed (λ e. r)
          (λ e.
            if_cases P (leb 64 (length s.out_q)) (λ e. r)
              (λ e.
                put-Room s s.open_controls false r (omega arith) (ground arith) (ground arith))))

admits-Room : (s : Lane) → Room s → Room (admit_one s).0
unfolding admit_one
admits-Room s r =
    let o = r.slots_owned in
    if_cases (λ (p : Lane × Bool). Room p.0) (ltb s.slots session_admit_queue)
      (λ e. record {
        slots_owned = omega arith;
        slots_bound = ground arith;
        others_bound = r.others_bound;
      })
      (λ e. r)

takes-Room :
    (s : Lane) (w : Writer) (q : List Outbound)
    → RoomAt s.open_controls s.slots w q
    → Room s
    → Room (take_from s w q)
unfolding take_from
takes-Room s waiting (ob ∷ q) a r =
    let o = a.slots_owned in
    let b = a.others_bound in
    record { slots_owned = omega arith; slots_bound = a.slots_bound; others_bound = ground arith }
takes-Room s waiting [] a r = r
takes-Room s (taken _) q a r = r
takes-Room s (released _) q a r = r
takes-Room s (held _) q a r = r
takes-Room s (sending _) q a r = r
takes-Room s (wrote_out _ _) q a r = r

-- With nothing in the writer's hand.
empty_handed :
    (w : Writer)
    → in_hand w ≡ 0
    → {n slots : ℕ} {w' : Writer} {q : List Outbound} → RoomAt n slots w' q
    → in_hand w' ≡ 0
    → RoomAt n slots w q
empty_handed w e a e' =
    let o = a.slots_owned in
    record { slots_owned = omega arith; slots_bound = a.slots_bound; others_bound = a.others_bound }

writes-Room :
    (s : Lane) (written : Bool) (w : Writer)
    → RoomAt s.open_controls s.slots w s.out_q
    → Room s
    → Room (write_from s written w)
unfolding write_from set_fault record_fault end_lane
writes-Room s written waiting a r = r
writes-Room s written (taken ob) a r =
    let o = a.slots_owned in
    let b = a.slots_bound in
    record { slots_owned = ground arith; slots_bound = ground arith; others_bound = a.others_bound }
writes-Room s written (released ob) a r =
    if_cases Room (is_free (s.claims ob.seq)) (λ e. empty_handed (held ob) refl a refl)
      (λ e. empty_handed (wrote_out ob true) refl a refl)
writes-Room s written (held ob) a r =
    if_cases (λ w. RoomAt s.open_controls s.slots w s.out_q) s.fault
      (λ e. empty_handed (wrote_out ob false) refl a refl)
      (λ e. empty_handed (sending ob) refl a refl)
writes-Room s written (sending ob) a r =
    if_cases Room written (λ e. empty_handed (wrote_out ob true) refl a refl)
      (λ e. empty_handed (wrote_out ob false) refl a refl)
writes-Room s written (wrote_out ob owed) a r = empty_handed waiting refl a refl

-- An answer that is refused gives its slot back.
give_back :
    (s : Lane)
    → 0 < s.open_controls
    → Room s
    → RoomAt (s.open_controls - 1) (s.slots - 1) s.writer s.out_q
give_back s h r =
    let o = r.slots_owned in
    record {
      slots_owned = omega arith;
      slots_bound = let b = r.slots_bound in omega arith;
      others_bound = r.others_bound;
    }

put_answer-Room :
    (s : Lane)
    → 0 < s.open_controls
    → Room s
    → Room (answered (put (record s { open_controls = s.open_controls - 1 }) true))
unfolding answered put set_fault record_fault end_lane
put_answer-Room s h r =
    if_cases (λ p. Room (answered p)) (ltb (length s.out_q) session_out_queue)
      (λ e.
        RoomAt-append (record { seq = s.queued + 1; release = true }) r (omega arith) (omega arith))
      (λ e. give_back s h r)

answers-Room : (s : Lane) → Room s → Room (answer s)
unfolding answer try_enqueue
answers-Room s r =
    if_cases Room (s.open_controls == 0) (λ e. r)
      (λ e.
        if_cases (λ p. Room (answered p)) (s.out_closed || s.fault)
          (λ f. unfold answered in give_back s (ground arith) r)
          (λ f. put_answer-Room s (ground arith) r))

gives_up-Room : (s : Lane) (k : ℕ) → Room s → Room (give_up s k).0
unfolding give_up
gives_up-Room s k r =
    if_cases (λ (p : Lane × Outcome). Room p.0) (is_free (s.claims k)) (λ e. r) (λ e. r)

⟶-Room : {s s' : Lane} → s ⟶ s' → Room s → Room s'
unfolding take_frame write_step set_fault record_fault end_lane settle
⟶-Room (enqueues {s}) r = enqueues-Room s r
⟶-Room (admits {s}) r = admits-Room s r
⟶-Room (answers {s}) r = answers-Room s r
⟶-Room (takes {s}) r = takes-Room s s.writer s.out_q r r
⟶-Room (writes {s} written) r = writes-Room s written s.writer r r
⟶-Room (gives_up {s} k _) r = gives_up-Room s k r
⟶-Room records r = r
⟶-Room faults r = r
⟶-Room ends r = r
⟶-Room settles r = r

Reachable-Room : {s : Lane} → Reachable s → Room s
Reachable-Room stays = fresh-Room
Reachable-Room (steps r t) = ⟶-Room t (Reachable-Room r)

-- However its steps are interleaved: while a control is open, the lane holds at most 128 frames, at
-- most 64 slots are taken, and an answer is not refused because the queue is full: events and host
-- calls leave it room.
pub answer-room :
    {s : Lane}
    → Reachable s
    → 0 < s.open_controls
    → (length s.out_q ≤ 128) × (s.slots ≤ 64) × ((try_enqueue s true).1 ≢ some queue_full)
unfolding try_enqueue put
answer-room {s} r h =
    let room = Reachable-Room r in
    let l = Room-length s room in
    let fits : ltb (length s.out_q) session_out_queue ≡ true = ground arith in
    (
      omega arith,
      room.slots_bound,
      if_cases (λ (p : Lane × Option Refusal). p.1 ≢ some queue_full) (s.out_closed || s.fault)
          (λ e x. cc) (λ e. rw fits (λ x. cc)),
    )
