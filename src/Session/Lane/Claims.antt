-- ===== src/Session/Lane/Claims.antt =====
-- A frame belongs to whoever claims it first: the writer, who sends it, or the host call that gave
-- it up.
use mathlib.Core.Path.{refl}
use aii_plugin_sdk.Prelude.{
  ==_iff, Bool, Bool-cases, List, Option, [], arith, false, if_cases, if_rule, inl, inr, leb,
  length, ltb, none, some, subst, true, ℕ, ◌-◌, ◌==◌, ◌||◌, ◌∙◌, ◌∷◌, ◌≡◌, ◌≢◌,
}
use aii_plugin_sdk.Session.Lane.{
  Claim, Lane, Outbound, Outcome, Reachable, Refusal, Writer, admit_one, admits, answer, answered,
  answers, by_caller, by_writer, claim, end_lane, ends, enqueues, faults, fresh, give_up, gives_up,
  held, is_free, not_sent, put, queue_full, record_fault, records, released, sending,
  session_admit_queue, session_out_queue, set_fault, settle, settles, stays, steps, take_frame,
  take_from, taken, takes, try_enqueue, unclaimed, waiting, write_from, write_step, writes,
  wrote_out, ◌⟶◌,
}

abbrev pub has : ℕ → List ℕ → Bool
has k [] = false
has k (j ∷ l) = j == k || has k l

-- The frame that the writer has claimed and may yet send.
abbrev pub MayBeSent : (ℕ → Claim) → Writer → Type 0
MayBeSent claims (held ob) = claims ob.seq ≡ by_writer
MayBeSent claims (sending ob) = claims ob.seq ≡ by_writer
MayBeSent claims _ = Unit

-- What was sent, or may be without another claim, is the writer's.
pub record OwnedAt (claims : ℕ → Claim) (sent : List ℕ) (w : Writer) : Type 0 where
  pub sent_owned : (k : ℕ) → has k sent ≡ true → claims k ≡ by_writer
  pub next_owned : MayBeSent claims w

abbrev pub Owned : Lane → Type 0
Owned s = OwnedAt s.claims s.sent s.writer

fresh-Owned : Owned fresh
unfolding fresh
fresh-Owned = record { sent_owned = λ k h. absurd (cc); next_owned = tt }

pub is_free-unclaimed : (c : Claim) → is_free c ≡ true → c ≡ unclaimed
is_free-unclaimed unclaimed h = refl
is_free-unclaimed by_writer h = absurd (cc)
is_free-unclaimed by_caller h = absurd (cc)

-- A claim changes no claim that was made.
pub claim-kept :
    (k j : ℕ) (c : Claim) (claims : ℕ → Claim)
    → claims k ≡ unclaimed
    → claims j ≢ unclaimed
    → claim k c claims j ≡ claims j
unfolding claim
claim-kept k j c claims e ne =
    if_cases (λ x. x ≡ claims j) (j == k) (λ h. absurd (ne (rw ((==_iff j k).0 h) e))) (λ h. refl)

pub claim-made : (k : ℕ) (c : Claim) (claims : ℕ → Claim) → claim k c claims k ≡ c
unfolding claim
claim-made k c claims = let e : (k == k) ≡ true = ground arith in rw e

owned-kept :
    (k j : ℕ) (c : Claim) (claims : ℕ → Claim)
    → claims k ≡ unclaimed
    → claims j ≡ by_writer
    → claim k c claims j ≡ by_writer
owned-kept k j c claims e h = claim-kept k j c claims e (λ x. cc) ∙ h

writes-Owned :
    (s : Lane) (written : Bool) (w : Writer)
    → OwnedAt s.claims s.sent w
    → Owned s
    → Owned (write_from s written w)
unfolding write_from set_fault record_fault end_lane
writes-Owned s written waiting a o = o
writes-Owned s written (taken ob) a o = record { sent_owned = a.sent_owned; next_owned = tt }
writes-Owned s written (released ob) a o =
    if_cases Owned (is_free (s.claims ob.seq))
      (λ e.
        let free = is_free-unclaimed (s.claims ob.seq) e in
        record {
          sent_owned = λ k h. owned-kept ob.seq k by_writer s.claims free (a.sent_owned k h);
          next_owned = claim-made ob.seq by_writer s.claims;
        })
      (λ e. record { sent_owned = a.sent_owned; next_owned = tt })
writes-Owned s written (held ob) a o =
    if_cases (λ w. OwnedAt s.claims s.sent w) s.fault
      (λ e. record { sent_owned = a.sent_owned; next_owned = tt })
      (λ e. record { sent_owned = a.sent_owned; next_owned = a.next_owned })
writes-Owned s written (sending ob) a o =
    if_cases Owned written
      (λ e. record {
        sent_owned = λ k h. elim (Bool-cases (ob.seq == k)) [
          | inl same ↦ subst (λ j. s.claims j ≡ by_writer) ((==_iff ob.seq k).0 same) a.next_owned
          | inr other ↦ a.sent_owned k (rw other at h)
        ];
        next_owned = tt;
      })
      (λ e. record { sent_owned = a.sent_owned; next_owned = tt })
writes-Owned s written (wrote_out ob owed) a o = record {
  sent_owned = a.sent_owned;
  next_owned = tt;
}

MayBeSent-kept :
    (k : ℕ) (claims : ℕ → Claim)
    → claims k ≡ unclaimed
    → (w : Writer) → MayBeSent claims w
    → MayBeSent (claim k by_caller claims) w
MayBeSent-kept k claims e waiting h = tt
MayBeSent-kept k claims e (taken ob) h = tt
MayBeSent-kept k claims e (released ob) h = tt
MayBeSent-kept k claims e (held ob) h = owned-kept k ob.seq by_caller claims e h
MayBeSent-kept k claims e (sending ob) h = owned-kept k ob.seq by_caller claims e h
MayBeSent-kept k claims e (wrote_out ob owed) h = tt

gives_up-Owned : (s : Lane) (k : ℕ) → Owned s → Owned (give_up s k).0
unfolding give_up
gives_up-Owned s k o =
    if_cases (λ (p : Lane × Outcome). Owned p.0) (is_free (s.claims k))
      (λ e.
        let free = is_free-unclaimed (s.claims k) e in
        record {
          sent_owned = λ j h. owned-kept k j by_caller s.claims free (o.sent_owned j h);
          next_owned = MayBeSent-kept k s.claims free s.writer o.next_owned;
        })
      (λ e. o)

takes-Owned : (s : Lane) (w : Writer) (q : List Outbound) → Owned s → Owned (take_from s w q)
unfolding take_from
takes-Owned s waiting (ob ∷ q) o = record { sent_owned = o.sent_owned; next_owned = tt }
takes-Owned s waiting [] o = o
takes-Owned s (taken _) q o = o
takes-Owned s (released _) q o = o
takes-Owned s (held _) q o = o
takes-Owned s (sending _) q o = o
takes-Owned s (wrote_out _ _) q o = o

-- The operations that only fill the queue.
pub put-same :
    (P : (ℕ → Claim) → List ℕ → Writer → Type 0) (s : Lane) (admission : Bool)
    → P s.claims s.sent s.writer
    → let t = (put s admission).0 in P t.claims t.sent t.writer
unfolding put
put-same P s admission p =
    if_rule (λ (r : Lane × Option Refusal). P r.0.claims r.0.sent r.0.writer)
      (ltb (length s.out_q) session_out_queue) p p

pub try_enqueue-same :
    (P : (ℕ → Claim) → List ℕ → Writer → Type 0) (s : Lane) (admission : Bool)
    → P s.claims s.sent s.writer
    → let t = (try_enqueue s admission).0 in P t.claims t.sent t.writer
unfolding try_enqueue
try_enqueue-same P s admission p =
    let Q : Lane × Option Refusal → Type 0 = λ r. P r.0.claims r.0.sent r.0.writer in
    if_rule Q (s.out_closed || s.fault) p (
      if_rule Q admission (put-same P s admission p)
        (if_rule Q s.closed p (if_rule Q (leb 64 (length s.out_q)) p (put-same P s admission p))))

pub answered-same :
    (P : (ℕ → Claim) → List ℕ → Writer → Type 0) (r : Lane × Option Refusal)
    → P r.0.claims r.0.sent r.0.writer
    → let t = answered r in P t.claims t.sent t.writer
unfolding answered set_fault record_fault end_lane
answered-same P (s, none) p = p
answered-same P (s, some not_sent) p = p
answered-same P (s, some queue_full) p = p

pub answer-same :
    (P : (ℕ → Claim) → List ℕ → Writer → Type 0) (s : Lane)
    → P s.claims s.sent s.writer
    → let t = answer s in P t.claims t.sent t.writer
unfolding answer
answer-same P s p =
    let s' = record s { open_controls = s.open_controls - 1 } in
    if_rule (λ (t : Lane). P t.claims t.sent t.writer) (s.open_controls == 0) p
      (answered-same P (try_enqueue s' true) (try_enqueue-same P s' true p))

pub admit_one-same :
    (P : (ℕ → Claim) → List ℕ → Writer → Type 0) (s : Lane)
    → P s.claims s.sent s.writer
    → let t = (admit_one s).0 in P t.claims t.sent t.writer
unfolding admit_one
admit_one-same P s p =
    if_rule (λ (r : Lane × Bool). P r.0.claims r.0.sent r.0.writer)
      (ltb s.slots session_admit_queue) p p

⟶-Owned : {s s' : Lane} → s ⟶ s' → Owned s → Owned s'
unfolding take_frame write_step set_fault record_fault end_lane settle
⟶-Owned (enqueues {s}) o = try_enqueue-same OwnedAt s false o
⟶-Owned (admits {s}) o = admit_one-same OwnedAt s o
⟶-Owned (answers {s}) o = answer-same OwnedAt s o
⟶-Owned (takes {s}) o = takes-Owned s s.writer s.out_q o
⟶-Owned (writes {s} written) o = writes-Owned s written s.writer o o
⟶-Owned (gives_up {s} k _) o = gives_up-Owned s k o
⟶-Owned records o = o
⟶-Owned faults o = o
⟶-Owned ends o = o
⟶-Owned settles o = o

pub Reachable-Owned : {s : Lane} → Reachable s → Owned s
Reachable-Owned stays = fresh-Owned
Reachable-Owned (steps r t) = ⟶-Owned t (Reachable-Owned r)
