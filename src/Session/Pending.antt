-- ===== src/Session/Pending.antt =====
-- The table of host calls that wait for a reply, in pkg/aiiosdk/session.go: `HostCallTo` enters a
-- call and takes it out again, `deliverReply` fills its channel, which holds one reply.
pub mod History
use mathlib.Core.Path.{refl}
use aii_plugin_sdk.Prelude.{
  Bool-cases, List, Option, [], ap, arith, false, if_rule, if◌then◌else◌, inl, inr, leb, length,
  none, some, suc, ℕ, ◌%◌, ◌+◌, ◌<◌, ◌==◌, ◌^◌, ◌∷◌, ◌≡◌, ◌≢◌, ◌≤◌,
}
use aii_plugin_sdk.Prelude.Bytes.{Bytes}

abbrev pub session_max_pending : ℕ
session_max_pending = 64

-- `sessionReply`.
pub record SessionReply : Type 0 where
  pub result : Bytes
  pub err_obj : Bytes

-- An entry of the map: the number of the call, and what its channel holds.
pub record Waiting : Type 0 where
  pub id : ℕ
  pub held : Option SessionReply

-- The two fields of `Session`; `next_id` is a `uint64`.
pub record Pending : Type 0 where
  pub next_id : ℕ
  pub calls : List Waiting

-- `delete(s.pending, id)`.
pub delete : ℕ → List Waiting → List Waiting
delete id [] = []
delete id (w ∷ ws) = let rest = delete id ws in if w.id == id then rest else w ∷ rest

-- The table with an entry for a new call: assigning to a key replaces its entry.
abbrev pub with_call : ℕ → Pending → Pending
unfolding delete
with_call id s = record {
  next_id = id;
  calls = record { id = id; held = none } ∷ delete id s.calls;
}

-- The entry of a call, if there are not too many.
unfoldable pub enter : Pending → Option (ℕ × Pending)
enter s =
    let id = (s.next_id + 1) % 2 ^ 64 in
    if leb session_max_pending (length s.calls) then none else some (id, with_call id s)

-- The deferred removal.
unfoldable pub leave : ℕ → Pending → Pending
unfolding delete
leave id s = record s { calls = delete id s.calls }

-- A send that does not wait, into a channel of one place.
abbrev pub fill : SessionReply → Option SessionReply → Option SessionReply
fill reply none = some reply
fill reply (some first) = some first

pub deliver : ℕ → SessionReply → List Waiting → List Waiting
deliver id reply [] = []
deliver id reply (w ∷ ws) =
    let rest = deliver id reply ws in
    if w.id == id then record w { held = fill reply w.held } ∷ ws else w ∷ rest

-- `deliverReply` of a reply whose id is a number.
unfoldable pub deliver_reply : ℕ → SessionReply → Pending → Pending
unfolding deliver
deliver_reply id reply s = record s { calls = deliver id reply s.calls }

-- `<-ch` of the call: its reply, if it has one.
pub received : ℕ → List Waiting → Option SessionReply
received id [] = none
received id (w ∷ ws) = let rest = received id ws in if w.id == id then w.held else rest

length-delete : (id : ℕ) (ws : List Waiting) → length (delete id ws) ≤ length ws
unfolding delete
length-delete id [] = omega arith
length-delete id (w ∷ ws) =
    if_rule (λ (l : List Waiting). length l ≤ suc (length ws)) (w.id == id)
      (omega (arith, length-delete id ws)) (omega (arith, length-delete id ws))

length-deliver :
    (id : ℕ) (reply : SessionReply) (ws : List Waiting) → length (deliver id reply ws) ≡ length ws
unfolding deliver
length-deliver id reply [] = refl
length-deliver id reply (w ∷ ws) =
    if_rule (λ (l : List Waiting). length l ≡ suc (length ws)) (w.id == id) refl
      (ap suc (length-deliver id reply ws))

-- The tables that a session comes to.
pub data Tables : Pending → Type 0 where
  no_calls : Tables (record { next_id = 0; calls = [] })
  enters : {s s' : Pending} {id : ℕ} → Tables s → enter s ≡ some (id, s') → Tables s'
  leaves : {s : Pending} (id : ℕ) → Tables s → Tables (leave id s)
  delivers :
      {s : Pending} (id : ℕ) (reply : SessionReply) → Tables s → Tables (deliver_reply id reply s)

abbrev entry : ℕ → Pending → ℕ × Pending
entry k s = (k, with_call k s)

enter-some :
    (s : Pending) {id : ℕ} {s' : Pending}
    → enter s ≡ some (id, s')
    → (length s.calls < session_max_pending)
      × (s'.calls ≡ record { id = id; held = none } ∷ delete id s.calls)
unfolding enter delete
enter-some s {id} {s'} e = elim (Bool-cases (leb session_max_pending (length s.calls))) [
  | inl f ↦ absurd (cc (rw f at e))
  | inr f ↦ (ground arith, entered (rw f at e))
]
  where
    entered :
        {k : ℕ}
        → some (entry k s) ≡ some (id, s')
        → s'.calls ≡ record { id = id; held = none } ∷ delete id s.calls
    entered e = cc

-- The table never holds more than 64 calls, in whatever order calls enter, are answered and leave.
pub Tables-bounded : {s : Pending} → Tables s → length s.calls ≤ session_max_pending
unfolding leave deliver_reply
Tables-bounded no_calls = omega arith
Tables-bounded (enters {s} {s'} {id} t e) =
    let (few, same) = enter-some s e in
    let n = ap (λ (l : List Waiting). length l) same in omega (arith, length-delete id s.calls)
Tables-bounded (leaves {s} id t) = omega (arith, length-delete id s.calls, Tables-bounded t)
Tables-bounded (delivers {s} id reply t) =
    omega (arith, length-deliver id reply s.calls, Tables-bounded t)

received-other :
    (id j : ℕ) (reply : SessionReply) (ws : List Waiting)
    → j ≢ id
    → received j (deliver id reply ws) ≡ received j ws
unfolding received deliver
received-other id j reply [] ne = refl
received-other id j reply (w ∷ ws) ne = elim (Bool-cases (w.id == id)) [
  | inl e ↦ let f : (w.id == j) ≡ false = ground arith in rw (e, f)
  | inr e ↦ rw (e, received-other id j reply ws ne)
]
