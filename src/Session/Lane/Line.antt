-- ===== src/Session/Lane/Line.antt =====
-- What each step of the lane keeps of the order of its frames.
use mathlib.Core.Path.{refl}
use aii_plugin_sdk.Prelude.{
  Bool, List, Option, [], arith, false, if_cases, if_rule, leb, length, length-append, ltb, none,
  some, true, ℕ, ◌++◌, ◌+◌, ◌-◌, ◌==◌, ◌||◌, ◌∷◌, ◌≡◌,
}
use aii_plugin_sdk.Session.Lane.{
  Claim, Lane, Outbound, Outcome, Refusal, Writer, admit_one, answer, answered, by_caller, claim,
  end_lane, fresh, give_up, held, is_free, not_sent, put, queue_full, record_fault, released,
  sending, session_admit_queue, session_out_queue, set_fault, take_from, taken, try_enqueue,
  unclaimed, waiting, write_from, wrote_out,
}
use aii_plugin_sdk.Session.Lane.Claims.{is_free-unclaimed}
use aii_plugin_sdk.Session.Lane.Order.{
  Descending-weaken, Discharged, Numbered, OrderAt, Ordered, Settled-claim, given_not_writer,
  writes-begin, writes-claim, writes-drop, writes-note, writes-send, writes-skip,
}

pub writes-Ordered :
    (n : ℕ) (s : Lane) (written : Bool) (w : Writer)
    → OrderAt s.claims s.sent s.wrote n w
    → Ordered n s
    → Ordered n (write_from s written w)
unfolding write_from set_fault record_fault end_lane
writes-Ordered n s written waiting a o = o
writes-Ordered n s written (taken ob) a o = record {
  before = a.before;
  claimed = a.claimed;
  ascending = a.ascending;
  settled = a.settled;
  discharged = tt;
}
writes-Ordered n s written (released ob) a o =
    if_cases (Ordered n) (is_free (s.claims ob.seq)) (λ e. writes-claim n s ob e a)
      (λ e. writes-skip n s ob e a)
writes-Ordered n s written (held ob) a o =
    if_cases (λ w. OrderAt s.claims s.sent s.wrote n w) s.fault
      (λ e. writes-drop n s ob (writes-begin n s ob a)) (λ e. writes-begin n s ob a)
writes-Ordered n s written (sending ob) a o =
    if_cases (Ordered n) written (λ e. writes-send n s ob a) (λ e. writes-drop n s ob a)
writes-Ordered n s written (wrote_out ob owed) a o = writes-note n s ob owed a

Discharged-claim :
    (claims : ℕ → Claim) (sent : List ℕ) (k : ℕ)
    → claims k ≡ unclaimed
    → (w : Writer) → Discharged claims sent w
    → Discharged (claim k by_caller claims) sent w
Discharged-claim claims sent k e (wrote_out ob true) d =
    Settled-claim claims sent ob.seq k by_caller e d
Discharged-claim claims sent k e (wrote_out ob false) d = tt
Discharged-claim claims sent k e waiting d = tt
Discharged-claim claims sent k e (taken ob) d = tt
Discharged-claim claims sent k e (released ob) d = tt
Discharged-claim claims sent k e (held ob) d = tt
Discharged-claim claims sent k e (sending ob) d = tt

pub gives_up-Ordered : (n : ℕ) (s : Lane) (k : ℕ) → Ordered n s → Ordered n (give_up s k).0
unfolding give_up
gives_up-Ordered n s k o =
    if_cases (λ (p : Lane × Outcome). Ordered n p.0) (is_free (s.claims k))
      (λ e.
        let free = is_free-unclaimed (s.claims k) e in
        record {
          before = o.before;
          claimed = λ j c. o.claimed j (given_not_writer k j s.claims c);
          ascending = o.ascending;
          settled = λ j l h. Settled-claim s.claims s.sent j k by_caller free (o.settled j l h);
          discharged = Discharged-claim s.claims s.sent k free s.writer o.discharged;
        })
      (λ e. o)

-- The queue's numbers run from `n` to the last that was given.
pub record Lined (queued wrote : ℕ) (claims : ℕ → Claim) (sent : List ℕ) (w : Writer)
    (q : List Outbound) : Type 0 where
  pub first : ℕ
  pub numbered : Numbered first q
  pub up_to : first + length q ≡ queued + 1
  pub ordered : OrderAt claims sent wrote first w

abbrev pub InLine : Lane → Type 0
InLine s = Lined s.queued s.wrote s.claims s.sent s.writer s.out_q

pub fresh-InLine : InLine fresh
unfolding fresh
fresh-InLine = record {
  first = 1;
  numbered = tt;
  up_to = refl;
  ordered = record {
    before = tt;
    claimed = λ k e. absurd (cc);
    ascending = tt;
    settled = λ k l h. absurd (omega arith);
    discharged = tt;
  };
}

pub takes-InLine :
    (s : Lane) (w : Writer) (q : List Outbound)
    → Lined s.queued s.wrote s.claims s.sent w q
    → InLine s
    → InLine (take_from s w q)
unfolding take_from
takes-InLine s waiting (ob ∷ q) a i =
    let (e, numbered) = a.numbered in
    let o = a.ordered in
    let u = a.up_to in
    record {
      first = a.first + 1;
      numbered = numbered;
      up_to = omega arith;
      ordered = record {
        before = omega arith;
        claimed = λ k c. let l = o.claimed k c in omega arith;
        ascending = Descending-weaken a.first ob.seq s.sent (omega arith) o.ascending;
        settled = o.settled;
        discharged = tt;
      };
    }
takes-InLine s waiting [] a i = i
takes-InLine s (taken _) q a i = i
takes-InLine s (released _) q a i = i
takes-InLine s (held _) q a i = i
takes-InLine s (sending _) q a i = i
takes-InLine s (wrote_out _ _) q a i = i

Numbered-append :
    (n : ℕ) (q : List Outbound) (ob : Outbound)
    → Numbered n q
    → ob.seq ≡ n + length q
    → Numbered n (q ++ (ob ∷ []))
Numbered-append n [] ob h e = (omega arith, tt)
Numbered-append n (x ∷ q) ob (f, h) e = (f, Numbered-append (n + 1) q ob h (omega arith))

put-InLine : (s : Lane) (admission : Bool) → InLine s → InLine (put s admission).0
unfolding put
put-InLine s admission i =
    let ob : Outbound = record { seq = s.queued + 1; release = admission } in
    let u = i.up_to in
    if_rule (λ (p : Lane × Option Refusal). InLine p.0) (ltb (length s.out_q) session_out_queue)
      (record {
        first = i.first;
        numbered = Numbered-append i.first s.out_q ob i.numbered (omega arith);
        up_to = omega (arith, length-append s.out_q (ob ∷ []));
        ordered = i.ordered;
      })
      i

pub try_enqueue-InLine :
    (s : Lane) (admission : Bool) → InLine s → InLine (try_enqueue s admission).0
unfolding try_enqueue
try_enqueue-InLine s admission i =
    let P : Lane × Option Refusal → Type 0 = λ p. InLine p.0 in
    if_rule P (s.out_closed || s.fault) i (
      if_rule P admission (put-InLine s admission i)
        (if_rule P s.closed i (if_rule P (leb 64 (length s.out_q)) i (put-InLine s admission i))))

answered-InLine : (r : Lane × Option Refusal) → InLine r.0 → InLine (answered r)
unfolding answered set_fault record_fault end_lane
answered-InLine (s, none) i = i
answered-InLine (s, some not_sent) i = i
answered-InLine (s, some queue_full) i = i

pub answers-InLine : (s : Lane) → InLine s → InLine (answer s)
unfolding answer
answers-InLine s i =
    let s' = record s { open_controls = s.open_controls - 1 } in
    if_rule InLine (s.open_controls == 0) i
      (answered-InLine (try_enqueue s' true) (try_enqueue-InLine s' true i))

pub admits-InLine : (s : Lane) → InLine s → InLine (admit_one s).0
unfolding admit_one
admits-InLine s i = if_rule (λ (r : Lane × Bool). InLine r.0) (ltb s.slots session_admit_queue) i i
