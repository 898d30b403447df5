-- ===== src/Plugin/SendWindow/Bound.antt =====
-- No window of time has more sends in it than the limit.
use mathlib.Core.Path.{refl}
use aii_plugin_sdk.Prelude.{
  Bool, Bool-cases, List, Option, [], ap, arith, if◌then◌else◌, inl, inr, length, ltb, none, ok,
  some, sym, true, ℕ, ◌++◌, ◌+◌, ◌<◌, ◌∙◌, ◌∷◌, ◌≡◌, ◌≤◌,
}
use aii_plugin_sdk.Prelude.Bytes.{Bytes}
use aii_plugin_sdk.Prelude.Int.{ℤ}
use aii_plugin_sdk.Plugin.SendWindow.{
  SendVerdict, Store, added, admit, filter, is_recent, recent, recent_in, record_send, sort, stored,
  times_of, verdict, verdict_of, window_of, window_settings, with_clock, with_settings,
}
use aii_plugin_sdk.Plugin.SendWindow.Counts.{
  Until, Until-filter, Until-sort, Until-weaken, count, count-append, count-filter, count-le,
  count-sort, length-filter, length-sort,
}
use aii_plugin_sdk.Plugin.SendWindow.Clock.{
  Until-append, added-short, in_window, in_window-earlier, is_recent-earlier, is_recent-now,
  not_in_window, ok_injective, one-le, settings-le,
}

module _ {S : Type 0} (store : Store S) (decode : Bytes → Option (List ℕ)) (encode : List ℕ → Bytes)
    (settings : Option (Option ℤ × Option ℤ)) (limit minutes : ℕ) where
  -- The sends of a channel under fixed settings, the last first, with the time of the last: each is
  -- admitted, then recorded, at a clock that does not go back.
  pub data Sends : S → List ℕ → ℕ → Type 0 where
    starts : {s : S} → store.get s ≡ ok none → Sends s [] 0
    sends :
        {s : S} {h : List ℕ} {last : ℕ} (now : ℕ) {v : SendVerdict}
        → Sends s h last
        → last ≤ now
        → admit store decode encode s settings (some now) ≡ ok v
        → v.allowed ≡ true
        → Sends (record_send store decode encode s (some now) v).0 (now ∷ h) now

  -- What the store holds is enough to count the sends of every window that ends from now on.
  record Kept (s : S) (h : List ℕ) (last : ℕ) : Type 0 where
    times : List ℕ
    recents :
        (now : ℕ)
        → recent store decode encode s now minutes
          ≡ ok (sort (filter (is_recent now (window_of minutes)) times))
    until : Until last times
    sent_until : Until last h
    counts :
        (now : ℕ)
        → last ≤ now
        → count (is_recent now (window_of minutes)) times
          ≡ count (λ t. ltb now (t + window_of minutes)) h
    bounded : (now : ℕ) → count (in_window now (window_of minutes)) h ≤ limit

  starts-Kept : {s : S} → store.get s ≡ ok none → Kept s [] 0
  unfolding recent recent_in sort filter
  starts-Kept e = record {
    times = [];
    recents = λ now. rw e refl;
    until = tt;
    sent_until = tt;
    counts = λ now h. refl;
    bounded = λ now. omega arith;
  }

  admit-verdict :
      (s : S) (now : ℕ) {v : SendVerdict} (times : List ℕ)
      → window_settings settings ≡ ok (limit, minutes)
      → recent store decode encode s now minutes ≡ ok times
      → admit store decode encode s settings (some now) ≡ ok v
      → v ≡ verdict limit minutes times
  unfolding admit with_settings with_clock verdict_of
  admit-verdict s now times w r h = ok_injective (
      sym h
      ∙ ap (with_settings store decode encode s (some now)) w
      ∙ ap (verdict_of store decode encode limit minutes) r)

  -- The store after a send that was admitted.
  record_send-recent :
      (s : S) (now : ℕ) (v : SendVerdict) (times : List ℕ)
      → ((ts : List ℕ) → decode (encode ts) ≡ some ts)
      → ((s : S) (raw : Bytes) → store.get (store.put s raw).0 ≡ ok (some raw))
      → v.window_minutes ≡ minutes
      → recent store decode encode s now minutes ≡ ok times
      → (later : ℕ)
      → recent store decode encode (record_send store decode encode s (some now) v).0 later minutes
        ≡ ok (sort (filter (is_recent later (window_of minutes)) (added now times)))
  unfolding record_send stored recent recent_in times_of
  record_send-recent s now v times reads puts m r later =
      ap
        (λ k.
          recent_in store decode encode later minutes
            (store.get (stored store decode encode s now (recent store decode encode s now k)).0))
        m
      ∙ ap
          (λ q.
            recent_in store decode encode later minutes
              (store.get (stored store decode encode s now q).0))
          r
      ∙ ap (recent_in store decode encode later minutes) (puts s (encode (added now times)))
      ∙ ap (λ d. ok (times_of store decode encode later (window_of minutes) d))
          (reads (added now times))

  -- The times that a send finds.
  abbrev found : ℕ → List ℕ → List ℕ
  found now times = sort (filter (is_recent now (window_of minutes)) times)

  length-found :
      {s : S} {h : List ℕ} {last : ℕ} (now : ℕ) (k : Kept s h last)
      → last ≤ now
      → length (found now k.times) ≡ count (λ t. ltb now (t + window_of minutes)) h
  length-found now k l =
      let p = is_recent now (window_of minutes) in
      length-sort (filter p k.times) ∙ length-filter p k.times ∙ k.counts now l

  found-counts :
      {s : S} {h : List ℕ} {last : ℕ} (now later : ℕ) (k : Kept s h last)
      → last ≤ now
      → now ≤ later
      → count (is_recent later (window_of minutes)) (found now k.times ++ (now ∷ []))
        ≡ count (λ t. ltb later (t + window_of minutes)) (now ∷ h)
  found-counts {last = last} now later k l m =
      let p = is_recent now (window_of minutes) in
      let q = is_recent later (window_of minutes) in
      let e = count-append q (found now k.times) (now ∷ []) in
      let f =
        count-sort q (filter p k.times)
        ∙ count-filter last p q k.times k.until
            (λ t u r. is_recent-earlier now later (window_of minutes) last t l m u r)
        ∙ k.counts later (omega arith) in
      let g : ◌≡◌ {A = ℕ} (if q now then 1 else 0)
          (if ltb later (now + window_of minutes) then 1 else 0) =
        ap (λ (b : Bool). if b then 1 else 0) (is_recent-now now later (window_of minutes) m) in
      omega (arith, e, f, g)

  window-bounded :
      {s : S} {h : List ℕ} {last : ℕ} (now : ℕ) (k : Kept s h last)
      → last ≤ now
      → length (found now k.times) < limit
      → (e : ℕ) → count (in_window e (window_of minutes)) (now ∷ h) ≤ limit
  window-bounded {h = h} {last} now k l a e = elim (Bool-cases (ltb e now)) [
    | inl early ↦
        rw (not_in_window now e (window_of minutes) (ground arith)) (omega (arith, k.bounded e))
    | inr late ↦
        let before =
          count-le last (in_window e (window_of minutes)) (λ t. ltb now (t + window_of minutes)) h
            k.sent_until
            (λ t _ r. in_window-earlier now e (window_of minutes) t (ground arith) r) in
        omega (arith, before, length-found now k l, one-le (in_window e (window_of minutes) now))
  ]

  sends-Kept :
      {s : S} {h : List ℕ} {last : ℕ} (now : ℕ) {v : SendVerdict}
      → window_settings settings ≡ ok (limit, minutes)
      → ((ts : List ℕ) → decode (encode ts) ≡ some ts)
      → ((s : S) (raw : Bytes) → store.get (store.put s raw).0 ≡ ok (some raw))
      → Kept s h last
      → last ≤ now
      → admit store decode encode s settings (some now) ≡ ok v
      → v.allowed ≡ true
      → Kept (record_send store decode encode s (some now) v).0 (now ∷ h) now
  unfolding verdict
  sends-Kept {s} {h} {last} now {v} w reads puts k l a t =
      let times = found now k.times in
      let same = admit-verdict s now times w (k.recents now) a in
      let fits : ltb (length times) limit ≡ true =
        sym (ap (λ (v : SendVerdict). v.allowed) same) ∙ t in
      let short : length times < limit = ground arith in
      let kept = added-short now times (omega (arith, settings-le settings w)) in
      let next =
        record_send-recent s now v times reads puts
          (ap (λ (v : SendVerdict). v.window_minutes) same) (k.recents now) in
      record {
        times = times ++ (now ∷ []);
        recents = λ later.
            next later
            ∙ ap (λ ts. ok (sort (filter (is_recent later (window_of minutes)) ts))) kept;
        until =
            Until-append now now times
              (Until-weaken last now times l (
                Until-sort last _
                  (Until-filter last (is_recent now (window_of minutes)) k.times k.until)))
              (omega arith);
        sent_until = (omega arith, Until-weaken last now h l k.sent_until);
        counts = λ later m. found-counts now later k l m;
        bounded = window-bounded now k l short;
      }

  -- A channel never sends more than its limit in any window of its length: under settings that are
  -- read as `limit` and `minutes`, a store that keeps what is put, and lists of times that are
  -- decoded as they were encoded, of all sends that were admitted and recorded at a clock that does
  -- not go back, at most `limit` lie in the `minutes` up to any time.
  pub Sends-bounded :
      {s : S} {h : List ℕ} {last : ℕ}
      → window_settings settings ≡ ok (limit, minutes)
      → ((ts : List ℕ) → decode (encode ts) ≡ some ts)
      → ((s : S) (raw : Bytes) → store.get (store.put s raw).0 ≡ ok (some raw))
      → Sends s h last
      → (now : ℕ) → count (in_window now (window_of minutes)) h ≤ limit
  Sends-bounded w reads puts r = let k = go r in k.bounded
    where
      go : {s : S} {h : List ℕ} {last : ℕ} → Sends s h last → Kept s h last
      go (starts e) = starts-Kept e
      go (sends now r l a t) = sends-Kept now w reads puts (go r) l a t
