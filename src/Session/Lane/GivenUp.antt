-- ===== src/Session/Lane/GivenUp.antt =====
-- A host call that reports that its frame was not sent.
use aii_plugin_sdk.Prelude.{
  Bool, Bool-cases, List, [], false, if_cases, if_rule, inl, inr, true, ℕ, ◌∙◌, ◌∷◌, ◌≡◌, ◌≤◌,
}
use aii_plugin_sdk.Session.Lane.{
  Claim, Lane, Outbound, Outcome, Reachable, Writer, admits, answers, by_caller, by_writer,
  call_not_sent, claim, end_lane, ends, enqueues, faults, give_up, gives_up, held, is_free,
  record_fault, records, released, sending, set_fault, settle, settles, stays, steps, take_frame,
  take_from, taken, takes, waiting, write_from, write_step, writes, wrote_out, ◌⟶*◌, ◌⟶◌,
}
use aii_plugin_sdk.Session.Lane.Claims.{
  Owned, Reachable-Owned, admit_one-same, answer-same, claim-kept, claim-made, has,
  is_free-unclaimed, try_enqueue-same,
}

-- Frame `k` was claimed by the host call that waited for it.
abbrev Given : ℕ → Lane → Type 0
Given k s = s.claims k ≡ by_caller

Given-kept :
    (k j : ℕ) (c : Claim) (claims : ℕ → Claim)
    → is_free (claims k) ≡ true
    → claims j ≡ by_caller
    → claim k c claims j ≡ by_caller
Given-kept k j c claims e h = claim-kept k j c claims (is_free-unclaimed (claims k) e) (λ x. cc) ∙ h

writes-Given :
    (k : ℕ) (s : Lane) (written : Bool) (w : Writer) → Given k s → Given k (write_from s written w)
unfolding write_from set_fault record_fault end_lane
writes-Given k s written waiting g = g
writes-Given k s written (taken ob) g = g
writes-Given k s written (released ob) g =
    if_cases (Given k) (is_free (s.claims ob.seq)) (λ e. Given-kept ob.seq k by_writer s.claims e g)
      (λ e. g)
writes-Given k s written (held ob) g = g
writes-Given k s written (sending ob) g = if_rule (Given k) written g g
writes-Given k s written (wrote_out ob owed) g = g

takes-Given :
    (k : ℕ) (s : Lane) (w : Writer) (q : List Outbound) → Given k s → Given k (take_from s w q)
unfolding take_from
takes-Given k s waiting (ob ∷ q) g = g
takes-Given k s waiting [] g = g
takes-Given k s (taken _) q g = g
takes-Given k s (released _) q g = g
takes-Given k s (held _) q g = g
takes-Given k s (sending _) q g = g
takes-Given k s (wrote_out _ _) q g = g

gives_up-Given : (k j : ℕ) (s : Lane) → Given k s → Given k (give_up s j).0
unfolding give_up
gives_up-Given k j s g =
    if_cases (λ (p : Lane × Outcome). Given k p.0) (is_free (s.claims j))
      (λ e. Given-kept j k by_caller s.claims e g) (λ e. g)

⟶-Given : (k : ℕ) {s s' : Lane} → s ⟶ s' → Given k s → Given k s'
unfolding take_frame write_step set_fault record_fault end_lane settle
⟶-Given k (enqueues {s}) g = try_enqueue-same (λ c _ _. c k ≡ by_caller) s false g
⟶-Given k (admits {s}) g = admit_one-same (λ c _ _. c k ≡ by_caller) s g
⟶-Given k (answers {s}) g = answer-same (λ c _ _. c k ≡ by_caller) s g
⟶-Given k (takes {s}) g = takes-Given k s s.writer s.out_q g
⟶-Given k (writes {s} written) g = writes-Given k s written s.writer g
⟶-Given k (gives_up {s} j _) g = gives_up-Given k j s g
⟶-Given k records g = g
⟶-Given k faults g = g
⟶-Given k ends g = g
⟶-Given k settles g = g

⟶*-Given : (k : ℕ) {s s' : Lane} → s ⟶* s' → Given k s → Given k s'
⟶*-Given k stays g = g
⟶*-Given k (steps r t) g = ⟶-Given k t (⟶*-Given k r g)

pub ⟶*-trans : {s s' s'' : Lane} → s ⟶* s' → s' ⟶* s'' → s ⟶* s''
⟶*-trans r stays = r
⟶*-trans r (steps q t) = steps (⟶*-trans r q) t

give_up-Given : (s : Lane) (k : ℕ) → (give_up s k).1 ≡ call_not_sent → Given k (give_up s k).0
unfolding give_up
give_up-Given s k h = elim (Bool-cases (is_free (s.claims k))) [
  | inl e ↦ rw e (claim-made k by_caller s.claims)
  | inr e ↦ absurd (cc (rw e at h))
]

Given-unsent : (k : ℕ) (s : Lane) → Owned s → Given k s → has k s.sent ≡ false
Given-unsent k s o g = elim (Bool-cases (has k s.sent)) [
  | inl e ↦ let w = o.sent_owned k e in absurd (cc)
  | inr e ↦ e
]

-- A host call that stops waiting and reports "not sent" tells the truth for good: if frame `k` was
-- given up so at some point of a session, then at no later point, whatever the other senders, the
-- writer and the transport do, is it among the frames that the transport took.
pub give_up-unsent :
    {s s' : Lane} (k : ℕ)
    → Reachable s
    → k ≤ s.queued
    → (give_up s k).1 ≡ call_not_sent
    → (give_up s k).0 ⟶* s'
    → has k s'.sent ≡ false
give_up-unsent {s} {s'} k r low h q =
    let r' : Reachable s' = ⟶*-trans (steps r (gives_up k low)) q in
    Given-unsent k s' (Reachable-Owned r') (⟶*-Given k q (give_up-Given s k h))
