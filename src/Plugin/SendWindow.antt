-- ===== src/Plugin/SendWindow.antt =====
-- pkg/aiiosdk/sendwindow.go: how many messages a channel may send in a span of time. The clock and
-- the times are milliseconds since 1970, natural numbers here. The store of the plugin is any state
-- with the two operations of the host; `json.Marshal` and `json.Unmarshal` of a list of times are
-- parameters.
pub mod Counts
pub mod Clock
pub mod Bound
use mathlib.Core.Option
use aii_plugin_sdk.Prelude.{
  Bool, List, Option, Result, [], drop, err, if◌then◌else◌, leb, length, ltb, map, none, ok, some,
  ℕ, ◌&&◌, ◌*◌, ◌++◌, ◌+◌, ◌-◌, ◌||◌, ◌∷◌,
}
use aii_plugin_sdk.Prelude.Bytes.{Bytes}
use aii_plugin_sdk.Prelude.Int.{negsuc, pos, ℤ}

abbrev pub max_send_limit : ℕ
max_send_limit = 1000

abbrev max_send_window_minutes : ℕ
max_send_window_minutes = 1440

abbrev default_send_limit : ℤ
default_send_limit = pos 20

abbrev default_send_window_minutes : ℤ
default_send_window_minutes = pos 60

-- `sendClockSkew.Milliseconds()`.
abbrev pub send_clock_skew : ℕ
send_clock_skew = 60000

pub data WindowError : Type 0 where
  settings_unread limit_out_of_range window_out_of_range no_clock storage : WindowError

-- `SendVerdict`; `retry_at` is zero time in the source where it is not set.
pub record SendVerdict : Type 0 where
  pub allowed : Bool
  pub sent : ℕ
  pub limit : ℕ
  pub window_minutes : ℕ
  pub retry_at : Option ℕ

abbrev or_default : Option ℤ → ℤ → ℤ
or_default none d = d
or_default (some v) d = v

-- A whole number from 1 to `max`.
in_bounds : ℕ → ℤ → Option ℕ
in_bounds max (pos n) = if ltb n 1 || ltb max n then none else some n
in_bounds max (negsuc n) = none

checked_settings : Option ℕ → Option ℕ → Result WindowError (ℕ × ℕ)
checked_settings none minutes = err limit_out_of_range
checked_settings (some limit) none = err window_out_of_range
checked_settings (some limit) (some minutes) = ok (limit, minutes)

-- `windowSettings`, of the two settings if they could be read.
unfoldable pub window_settings : Option (Option ℤ × Option ℤ) → Result WindowError (ℕ × ℕ)
unfolding checked_settings in_bounds
window_settings none = err settings_unread
window_settings (some (limit, minutes)) =
    checked_settings (in_bounds max_send_limit (or_default limit default_send_limit))
      (in_bounds max_send_window_minutes (or_default minutes default_send_window_minutes))

-- Milliseconds of a window.
abbrev pub window_of : ℕ → ℕ
window_of minutes = minutes * 60000

-- The test of `recent`: `t > now - window && t <= now + skew`.
abbrev pub is_recent : ℕ → ℕ → ℕ → Bool
is_recent now window t = ltb now (t + window) && leb t (now + send_clock_skew)

pub filter : (ℕ → Bool) → List ℕ → List ℕ
filter p [] = []
filter p (t ∷ ts) = let rest = filter p ts in if p t then t ∷ rest else rest

insert : ℕ → List ℕ → List ℕ
insert t [] = t ∷ []
insert t (u ∷ ts) = let rest = insert t ts in if leb t u then t ∷ u ∷ ts else u ∷ rest

-- `sort.Slice` of numbers.
pub sort : List ℕ → List ℕ
unfolding insert
sort [] = []
sort (t ∷ ts) = insert t (sort ts)

first : List ℕ → Option ℕ
first [] = none
first (t ∷ _) = some t

-- The verdict on the times that count.
unfoldable pub verdict : ℕ → ℕ → List ℕ → SendVerdict
unfolding first
verdict limit minutes times = record {
  allowed = ltb (length times) limit;
  sent = length times;
  limit = limit;
  window_minutes = minutes;
  retry_at =
      if ltb (length times) limit
      then none
      else Option.map (λ t. t + window_of minutes) (first (drop (length times - limit) times));
}

-- The times that are stored after a send.
unfoldable pub added : ℕ → List ℕ → List ℕ
added now times =
    let times' = times ++ (now ∷ []) in
    if ltb max_send_limit (length times')
    then drop (length times' - max_send_limit) times'
    else times'

-- `KV.Get` of the window's key: an error, nothing, or what is stored; and `KV.Put`.
pub record Store (S : Type 0) : Type 0 where
  pub get : S → Result (Unit {0}) (Option Bytes)
  pub put : S → Bytes → S × Bool

module _ {S : Type 0} (store : Store S) (decode : Bytes → Option (List ℕ))
    (encode : List ℕ → Bytes) where
  times_of : ℕ → ℕ → Option (List ℕ) → List ℕ
  unfolding sort filter
  times_of now window none = []
  times_of now window (some times) = sort (filter (is_recent now window) times)

  recent_in : ℕ → ℕ → Result (Unit {0}) (Option Bytes) → Result WindowError (List ℕ)
  unfolding times_of
  recent_in now minutes (err _) = err storage
  recent_in now minutes (ok none) = ok []
  recent_in now minutes (ok (some raw)) = ok (times_of now (window_of minutes) (decode raw))

  -- `SendWindow.recent`.
  unfoldable pub recent : S → ℕ → ℕ → Result WindowError (List ℕ)
  unfolding recent_in
  recent s now minutes = recent_in now minutes (store.get s)

  verdict_of : ℕ → ℕ → Result WindowError (List ℕ) → Result WindowError SendVerdict
  unfolding verdict
  verdict_of limit minutes (err e) = err e
  verdict_of limit minutes (ok times) = ok (verdict limit minutes times)

  with_clock : S → ℕ × ℕ → Option ℕ → Result WindowError SendVerdict
  unfolding verdict_of recent
  with_clock s (limit, minutes) none = err no_clock
  with_clock s (limit, minutes) (some now) = verdict_of limit minutes (recent s now minutes)

  with_settings : S → Option ℕ → Result WindowError (ℕ × ℕ) → Result WindowError SendVerdict
  unfolding with_clock
  with_settings s now (err e) = err e
  with_settings s now (ok bounds) = with_clock s bounds now

  -- `SendWindow.Admit`, of the settings and the clock of the call.
  unfoldable pub admit :
      S → Option (Option ℤ × Option ℤ) → Option ℕ → Result WindowError SendVerdict
  unfolding with_settings window_settings
  admit s settings now = with_settings s now (window_settings settings)

  stored : S → ℕ → Result WindowError (List ℕ) → S × Option WindowError
  unfolding added
  stored s now (err e) = (s, some e)
  stored s now (ok times) =
      let (s', is_put) = store.put s (encode (added now times)) in
      (s', if is_put then none else some storage)

  -- `SendWindow.Record`.
  unfoldable pub record_send : S → Option ℕ → SendVerdict → S × Option WindowError
  unfolding stored recent
  record_send s none v = (s, some no_clock)
  record_send s (some now) v = stored s now (recent s now v.window_minutes)
