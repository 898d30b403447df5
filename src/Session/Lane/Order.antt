-- ===== src/Session/Lane/Order.antt =====
-- Frames are numbered as they are accepted and leave the lane in that order; what `Flush` waits for.
use aii_plugin_sdk.Prelude.{
  ==_iff, Bool, Bool-cases, List, [], arith, false, if◌then◌else◌, inl, inr, refl, subst, sym, true,
  ℕ, ◌&&◌, ◌+◌, ◌<◌, ◌==◌, ◌∙◌, ◌∷◌, ◌≡◌, ◌≤◌, ◌⊎◌,
}
use aii_plugin_sdk.Session.Lane.{
  Claim, Lane, Outbound, Writer, by_caller, by_writer, claim, held, is_free, released, sending,
  taken, unclaimed, waiting, wrote_out,
}
use aii_plugin_sdk.Session.Lane.Claims.{claim-kept, has, is_free-unclaimed}

-- The queue's numbers go up by one from `n`.
abbrev pub Numbered : ℕ → List Outbound → Type 0
Numbered n [] = Unit
Numbered n (ob ∷ q) = (ob.seq ≡ n) × Numbered (n + 1) q

-- The number of the frame that the writer has, before `n`, the next in the queue.
abbrev pub Before : ℕ → Writer → Type 0
Before n waiting = Unit
Before n (taken ob) = ob.seq + 1 ≡ n
Before n (released ob) = ob.seq + 1 ≡ n
Before n (held ob) = ob.seq + 1 ≡ n
Before n (sending ob) = ob.seq + 1 ≡ n
Before n (wrote_out ob owed) = ob.seq + 1 ≡ n

-- The first number that the writer has not claimed, and the first that it has not sent.
abbrev pub unclaimed_from : ℕ → Writer → ℕ
unclaimed_from n (taken ob) = ob.seq
unclaimed_from n (released ob) = ob.seq
unclaimed_from n _ = n

abbrev pub unsent_from : ℕ → Writer → ℕ
unsent_from n (held ob) = ob.seq
unsent_from n (sending ob) = ob.seq
unsent_from n w = unclaimed_from n w

-- Descending numbers below `b`.
abbrev pub Descending : ℕ → List ℕ → Type 0
Descending b [] = Unit
Descending b (k ∷ l) = (k < b) × Descending k l

-- A frame that is not owed any more: it was sent, or its host call gave it up.
abbrev pub Settled : (ℕ → Claim) → List ℕ → ℕ → Type 0
Settled claims sent k = (has k sent ≡ true) ⊎ (claims k ≡ by_caller)

abbrev pub Discharged : (ℕ → Claim) → List ℕ → Writer → Type 0
Discharged claims sent (wrote_out ob true) = Settled claims sent ob.seq
Discharged claims sent _ = Unit

pub record OrderAt (claims : ℕ → Claim) (sent : List ℕ) (wrote n : ℕ) (w : Writer) : Type 0 where
  pub before : Before n w
  pub claimed : (k : ℕ) → claims k ≡ by_writer → k < unclaimed_from n w
  pub ascending : Descending (unsent_from n w) sent
  pub settled : (k : ℕ) → 0 < k → k ≤ wrote → Settled claims sent k
  pub discharged : Discharged claims sent w

Settled-sent :
    (claims : ℕ → Claim) (sent : List ℕ) (k j : ℕ)
    → Settled claims sent k
    → Settled claims (j ∷ sent) k
Settled-sent claims sent k j (inl h) = inl (ground arith)
Settled-sent claims sent k j (inr h) = inr h

pub Settled-claim :
    (claims : ℕ → Claim) (sent : List ℕ) (k j : ℕ) (c : Claim)
    → claims j ≡ unclaimed
    → Settled claims sent k
    → Settled (claim j c claims) sent k
Settled-claim claims sent k j c e (inl h) = inl h
Settled-claim claims sent k j c e (inr h) = inr (claim-kept j k c claims e (λ x. cc) ∙ h)

claim-claimed :
    (j k : ℕ) (claims : ℕ → Claim) (n : ℕ)
    → ((i : ℕ) → claims i ≡ by_writer → i < j)
    → j < n
    → claim j by_writer claims k ≡ by_writer
    → k < n
unfolding claim
claim-claimed j k claims n below h e = elim (Bool-cases (k == j)) [
  | inl same ↦ omega (arith, (==_iff k j).0 same)
  | inr other ↦ omega (arith, below k (rw other at e))
]

pub given_not_writer :
    (j k : ℕ) (claims : ℕ → Claim) → claim j by_caller claims k ≡ by_writer → claims k ≡ by_writer
unfolding claim
given_not_writer j k claims e = elim (Bool-cases (k == j)) [
  | inl same ↦ absurd (cc (rw same at e))
  | inr other ↦ rw other at e
]

pub Descending-weaken : (a b : ℕ) (l : List ℕ) → a ≤ b → Descending a l → Descending b l
Descending-weaken a b [] h d = tt
Descending-weaken a b (k ∷ l) h (lt, d) = (omega arith, d)

taken_claim : (c : Claim) → is_free c ≡ false → (c ≡ by_writer) ⊎ (c ≡ by_caller)
taken_claim unclaimed h = absurd (cc)
taken_claim by_writer h = inl refl
taken_claim by_caller h = inr refl

-- Where the queue begins at `n`.
abbrev pub Ordered : ℕ → Lane → Type 0
Ordered n s = OrderAt s.claims s.sent s.wrote n s.writer

pub writes-claim :
    (n : ℕ) (s : Lane) (ob : Outbound)
    → is_free (s.claims ob.seq) ≡ true
    → OrderAt s.claims s.sent s.wrote n (released ob)
    → OrderAt (claim ob.seq by_writer s.claims) s.sent s.wrote n (held ob)
writes-claim n s ob e a =
    let free = is_free-unclaimed (s.claims ob.seq) e in
    let b = a.before in
    record {
      before = b;
      claimed = λ k c. claim-claimed ob.seq k s.claims n a.claimed (omega arith) c;
      ascending = a.ascending;
      settled = λ k l h. Settled-claim s.claims s.sent k ob.seq by_writer free (a.settled k l h);
      discharged = tt;
    }

pub writes-skip :
    (n : ℕ) (s : Lane) (ob : Outbound)
    → is_free (s.claims ob.seq) ≡ false
    → OrderAt s.claims s.sent s.wrote n (released ob)
    → OrderAt s.claims s.sent s.wrote n (wrote_out ob true)
writes-skip n s ob e a =
    let b = a.before in
    record {
      before = b;
      claimed = λ k c. let l = a.claimed k c in omega arith;
      ascending = Descending-weaken ob.seq n s.sent (omega arith) a.ascending;
      settled = a.settled;
      discharged = elim (taken_claim (s.claims ob.seq) e) [
        | inl c ↦ let l = a.claimed ob.seq c in absurd (omega arith)
        | inr c ↦ inr c
      ];
    }

pub writes-send :
    (n : ℕ) (s : Lane) (ob : Outbound)
    → OrderAt s.claims s.sent s.wrote n (sending ob)
    → OrderAt s.claims (ob.seq ∷ s.sent) s.wrote n (wrote_out ob true)
writes-send n s ob a =
    let b = a.before in
    record {
      before = b;
      claimed = a.claimed;
      ascending = (omega arith, a.ascending);
      settled = λ k l h. Settled-sent s.claims s.sent k ob.seq (a.settled k l h);
      discharged = inl (ground arith);
    }

-- The writer drops a frame that was not sent.
pub writes-drop :
    (n : ℕ) (s : Lane) (ob : Outbound)
    → OrderAt s.claims s.sent s.wrote n (sending ob)
    → OrderAt s.claims s.sent s.wrote n (wrote_out ob false)
writes-drop n s ob a =
    let b = a.before in
    record {
      before = b;
      claimed = a.claimed;
      ascending = Descending-weaken ob.seq n s.sent (omega arith) a.ascending;
      settled = a.settled;
      discharged = tt;
    }

pub writes-begin :
    (n : ℕ) (s : Lane) (ob : Outbound)
    → OrderAt s.claims s.sent s.wrote n (held ob)
    → OrderAt s.claims s.sent s.wrote n (sending ob)
writes-begin n s ob a = record {
  before = a.before;
  claimed = a.claimed;
  ascending = a.ascending;
  settled = a.settled;
  discharged = tt;
}

pub writes-note :
    (n : ℕ) (s : Lane) (ob : Outbound) (owed_nothing : Bool)
    → OrderAt s.claims s.sent s.wrote n (wrote_out ob owed_nothing)
    → OrderAt s.claims s.sent
        (if owed_nothing && s.wrote + 1 == ob.seq then ob.seq else s.wrote)
        n
        waiting
writes-note n s ob owed_nothing a = record {
  before = tt;
  claimed = a.claimed;
  ascending = a.ascending;
  settled = noted owed_nothing a.discharged;
  discharged = tt;
}
  where
    noted :
        (owed : Bool)
        → Discharged s.claims s.sent (wrote_out ob owed)
        → (k : ℕ) → 0 < k
        → k ≤ (if owed && s.wrote + 1 == ob.seq then ob.seq else s.wrote)
        → Settled s.claims s.sent k
    noted false d k l h = a.settled k l h
    noted true d k l h = elim (Bool-cases (k == ob.seq)) [
      | inl e ↦ subst (Settled s.claims s.sent) (sym ((==_iff k ob.seq).0 e)) d
      | inr e ↦ a.settled k l (ground arith)
    ]
