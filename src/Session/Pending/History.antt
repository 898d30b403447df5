-- ===== src/Session/Pending/History.antt =====
-- What a call that waits receives, over every history of the table.
use mathlib.Core.Path.{refl}
use aii_plugin_sdk.Prelude.{
  ==_iff, Bool, Bool-cases, List, Option, [], ap, arith, false, if_cases, if◌then◌else◌, inl, inr,
  leb, length, none, some, subst, sym, true, ℕ, ◌%◌, ◌+◌, ◌<◌, ◌==◌, ◌^◌, ◌∙◌, ◌∷◌, ◌≡◌, ◌≢◌, ◌⊎◌,
}
use aii_plugin_sdk.Session.Pending.{
  Pending, SessionReply, Waiting, delete, deliver, deliver_reply, enter, entry, fill, leave,
  received, received-other, session_max_pending, with_call,
}

-- What happens to the table: `HostCallTo` enters a call or leaves with one, or a reply comes.
pub data PendingEvent : Type 0 where
  call_enters : PendingEvent
  call_leaves : ℕ → PendingEvent
  reply_comes : ℕ → SessionReply → PendingEvent

entered_or : Pending → Option (ℕ × Pending) → Pending
entered_or s none = s
entered_or s (some (id, s')) = s'

-- The table behind an event; a call that finds no room leaves it as it is.
unfoldable pub behind_event : PendingEvent → Pending → Pending
unfolding entered_or enter leave deliver_reply
behind_event call_enters s = entered_or s (enter s)
behind_event (call_leaves id) s = leave id s
behind_event (reply_comes id reply) s = deliver_reply id reply s

unfoldable pub behind_events : List PendingEvent → Pending → Pending
unfolding behind_event
behind_events [] s = s
behind_events (e ∷ es) s = behind_events es (behind_event e s)

-- The first reply that comes for a call.
unfoldable pub first_reply : ℕ → List PendingEvent → Option SessionReply
first_reply id [] = none
first_reply id (call_enters ∷ es) = first_reply id es
first_reply id (call_leaves j ∷ es) = first_reply id es
first_reply id (reply_comes j reply ∷ es) =
    let rest = first_reply id es in if j == id then some reply else rest

-- The call does not leave.
abbrev pub Stays : ℕ → List PendingEvent → Type 0
Stays id [] = Unit
Stays id (call_enters ∷ es) = Stays id es
Stays id (call_leaves j ∷ es) = (j ≢ id) × Stays id es
Stays id (reply_comes j reply ∷ es) = Stays id es

has_call : ℕ → List Waiting → Bool
has_call id [] = false
has_call id (w ∷ ws) = let rest = has_call id ws in if w.id == id then true else rest

abbrev or_later : Option SessionReply → Option SessionReply → Option SessionReply
or_later none later = later
or_later (some first) later = some first

received-delete :
    (id j : ℕ) (ws : List Waiting) → j ≢ id → received id (delete j ws) ≡ received id ws
unfolding received delete
received-delete id j [] ne = refl
received-delete id j (w ∷ ws) ne = elim (Bool-cases (w.id == j)) [
  | inl e ↦ let f : (w.id == id) ≡ false = ground arith in rw (e, f) (received-delete id j ws ne)
  | inr e ↦ rw (e, received-delete id j ws ne)
]

has_call-delete :
    (id j : ℕ) (ws : List Waiting) → j ≢ id → has_call id (delete j ws) ≡ has_call id ws
unfolding has_call delete
has_call-delete id j [] ne = refl
has_call-delete id j (w ∷ ws) ne = elim (Bool-cases (w.id == j)) [
  | inl e ↦ let f : (w.id == id) ≡ false = ground arith in rw (e, f) (has_call-delete id j ws ne)
  | inr e ↦ rw (e, has_call-delete id j ws ne)
]

has_call-deliver :
    (id j : ℕ) (reply : SessionReply) (ws : List Waiting)
    → has_call id (deliver j reply ws) ≡ has_call id ws
unfolding has_call deliver
has_call-deliver id j reply [] = refl
has_call-deliver id j reply (w ∷ ws) = elim (Bool-cases (w.id == j)) [
  | inl e ↦ rw e refl
  | inr e ↦ rw (e, has_call-deliver id j reply ws)
]

received-deliver :
    (id : ℕ) (reply : SessionReply) (ws : List Waiting)
    → has_call id ws ≡ true
    → received id (deliver id reply ws) ≡ fill reply (received id ws)
unfolding has_call received deliver
received-deliver id reply [] h = absurd (cc)
received-deliver id reply (w ∷ ws) h = elim (Bool-cases (w.id == id)) [
  | inl e ↦ rw (e, e) refl
  | inr e ↦ rw (e, e) (received-deliver id reply ws (rw e at h))
]

-- The table `s` has the call, `n` others have entered after it.
record Holds (id n : ℕ) (s : Pending) : Type 0 where
  small : id < 2 ^ 64
  numbered : s.next_id ≡ (id + n) % 2 ^ 64
  present : has_call id s.calls ≡ true

Holds-with_call :
    (id n : ℕ) (s : Pending)
    → Holds id n s
    → n + 1 < 2 ^ 64
    → Holds id (n + 1) (with_call ((s.next_id + 1) % 2 ^ 64) s)
      × (received id (with_call ((s.next_id + 1) % 2 ^ 64) s).calls ≡ received id s.calls)
unfolding has_call received with_call
Holds-with_call id n s h few =
    let k = (s.next_id + 1) % 2 ^ 64 in
    let small = h.small in
    let same : k ≡ (id + (n + 1)) % 2 ^ 64 = next_number id n s.next_id h.numbered in
    let other : k ≢ id = λ e. later_number id n h.small few (sym same ∙ e) in
    let f : (k == id) ≡ false = other_number k id other in
    (
      record {
        small = h.small;
        numbered = same;
        present = rw f (has_call-delete id k s.calls other ∙ h.present);
      },
      rw f (received-delete id k s.calls other),
    )
  where
    next_number : (id n m : ℕ) → m ≡ (id + n) % 2 ^ 64 → (m + 1) % 2 ^ 64 ≡ (id + (n + 1)) % 2 ^ 64
    next_number id n m e = omega arith

    later_number : (id n : ℕ) → id < 2 ^ 64 → n + 1 < 2 ^ 64 → (id + (n + 1)) % 2 ^ 64 ≢ id
    later_number id n h k e = omega arith

    other_number : (k id : ℕ) → k ≢ id → (k == id) ≡ false
    other_number k id n = ground arith

or_later-fill :
    (o later : Option SessionReply) (reply : SessionReply)
    → or_later (fill reply o) later ≡ or_later o (some reply)
or_later-fill none later reply = refl
or_later-fill (some x) later reply = refl

enter-cases :
    (s : Pending) → (enter s ≡ none) ⊎ (enter s ≡ some (entry ((s.next_id + 1) % 2 ^ 64) s))
unfolding enter
enter-cases s = elim (Bool-cases (leb session_max_pending (length s.calls))) [
  | inl e ↦ inl (rw e refl)
  | inr e ↦ inr (rw e refl)
]

later_reply :
    (id j : ℕ) (reply : SessionReply) (ws : List Waiting) (rest : Option SessionReply)
    → has_call id ws ≡ true
    → or_later (received id (deliver j reply ws)) rest
      ≡ or_later (received id ws) (if j == id then some reply else rest)
later_reply id j reply ws rest h =
    if_cases (λ x. or_later (received id (deliver j reply ws)) rest ≡ or_later (received id ws) x)
      (j == id)
      (λ e.
        let mine : received id (deliver j reply ws) ≡ fill reply (received id ws) =
          subst (λ k. received id (deliver k reply ws) ≡ fill reply (received id ws))
            (sym ((==_iff j id).0 e)) (received-deliver id reply ws h) in
        ap (λ o. or_later o rest) mine ∙ or_later-fill (received id ws) rest reply)
      (λ e. ap (λ o. or_later o rest) (received-other j id reply ws (λ f. apart id j e f)))
  where
    apart : (id j : ℕ) → (j == id) ≡ false → id ≢ j
    apart id j e f = ground arith

history :
    (id n : ℕ) (s : Pending) (es : List PendingEvent)
    → Holds id n s
    → Stays id es
    → n + length es < 2 ^ 64
    → received id (behind_events es s).calls ≡ or_later (received id s.calls) (first_reply id es)
unfolding behind_events behind_event entered_or leave deliver_reply first_reply
history id n s [] h st few = no_later (received id s.calls)
  where
    no_later : (o : Option SessionReply) → o ≡ or_later o none
    no_later none = refl
    no_later (some x) = refl
history id n s (call_enters ∷ es) h st few =
    let behind : Option (ℕ × Pending) → Option SessionReply =
      λ o. received id (behind_events es (entered_or s o)).calls in
    elim (enter-cases s) [
      | inl e ↦ ap behind e ∙ history id n s es h st (omega arith)
      | inr e ↦
          let (k, same) = Holds-with_call id n s h (omega arith) in
          ap behind e
          ∙ history id (n + 1) (with_call ((s.next_id + 1) % 2 ^ 64) s) es k st (omega arith)
          ∙ ap (λ o. or_later o (first_reply id es)) same
    ]
history id n s (call_leaves j ∷ es) h (ne, st) few =
    let t = record s { calls = delete j s.calls } in
    let k : Holds id n t = record {
      small = h.small;
      numbered = h.numbered;
      present = has_call-delete id j s.calls ne ∙ h.present;
    } in
    history id n t es k st (omega arith)
    ∙ ap (λ o. or_later o (first_reply id es)) (received-delete id j s.calls ne)
history id n s (reply_comes j reply ∷ es) h st few =
    let t = record s { calls = deliver j reply s.calls } in
    let k : Holds id n t = record {
      small = h.small;
      numbered = h.numbered;
      present = has_call-deliver id j reply s.calls ∙ h.present;
    } in
    history id n t es k st (omega arith)
    ∙ later_reply id j reply s.calls (first_reply id es) h.present

-- A call that has just entered the table.
enter-Holds :
    (s s' : Pending) (id : ℕ)
    → enter s ≡ some (id, s')
    → Holds id 0 s' × (received id s'.calls ≡ none)
unfolding has_call received with_call
enter-Holds s s' id e = elim (enter-cases s) [
  | inl f ↦ absurd (let g = sym f ∙ e in cc)
  | inr f ↦
      let k = (s.next_id + 1) % 2 ^ 64 in
      let g = sym f ∙ e in
      let i : k ≡ id = cc in
      let j : with_call k s ≡ s' = cc in
      let same : (k == k) ≡ true = ground arith in
      subst (λ x. Holds id 0 x × (received id x.calls ≡ none)) j
        (subst (λ x. Holds x 0 (with_call k s) × (received x (with_call k s).calls ≡ none)) i
          (
            record { small = below s.next_id; numbered = again s.next_id; present = rw same refl },
            rw same refl,
          ))
]
  where
    below : (n : ℕ) → (n + 1) % 2 ^ 64 < 2 ^ 64
    below n = omega arith

    again : (n : ℕ) → (n + 1) % 2 ^ 64 ≡ ((n + 1) % 2 ^ 64 + 0) % 2 ^ 64
    again n = omega arith

-- A call that has entered the table receives the first reply that comes for it, and no other,
-- whatever happens in between: other calls enter and leave, replies come for other calls, and more
-- replies come for this one. If none comes for it, it receives none. The call itself does not leave,
-- and fewer than 2^64 events follow, so that no later call gets its number.
pub behind_events-first_reply :
    (s s' : Pending) (id : ℕ) (es : List PendingEvent)
    → enter s ≡ some (id, s')
    → Stays id es
    → length es < 2 ^ 64
    → received id (behind_events es s').calls ≡ first_reply id es
behind_events-first_reply s s' id es e st few =
    let (h, n) = enter-Holds s s' id e in
    history id 0 s' es h st (omega arith) ∙ ap (λ o. or_later o (first_reply id es)) n
