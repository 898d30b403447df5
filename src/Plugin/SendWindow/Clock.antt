-- ===== src/Plugin/SendWindow/Clock.antt =====
-- Settings, windows and clocks: what the bound on sends needs of the numbers.
use mathlib.Core.Path.{refl}
use aii_plugin_sdk.Prelude.{
  Bool, List, Option, Result, [], arith, false, if_cases, if◌then◌else◌, leb, length, length-append,
  ltb, none, ok, some, true, ℕ, ◌&&◌, ◌++◌, ◌+◌, ◌<◌, ◌||◌, ◌∷◌, ◌≡◌, ◌≤◌,
}
use aii_plugin_sdk.Prelude.Int.{negsuc, pos, ℤ}
use aii_plugin_sdk.Plugin.SendWindow.{
  WindowError, added, checked_settings, default_send_limit, default_send_window_minutes, in_bounds,
  is_recent, max_send_limit, max_send_window_minutes, or_default, window_settings,
}
use aii_plugin_sdk.Plugin.SendWindow.Counts.{Until}

some_injective : {a b : ℕ} → some a ≡ some b → a ≡ b
some_injective e = cc

pub ok_injective : {A : Type 0} {a b : A} → ◌≡◌ {A = Result WindowError A} (ok a) (ok b) → a ≡ b
ok_injective e = cc

below : (k n max : ℕ) → (ltb k 1 || ltb max k) ≡ false → k ≡ n → n ≤ max
below k n max e f = ground arith

in_bounds-le : (max : ℕ) (v : ℤ) {n : ℕ} → in_bounds max v ≡ some n → n ≤ max
unfolding in_bounds
in_bounds-le max (pos k) {n} h =
    if_cases (λ o. o ≡ some n → n ≤ max) (ltb k 1 || ltb max k) (λ _ h. absurd (cc))
      (λ e h. below k n max e (some_injective h)) h
in_bounds-le max (negsuc k) h = absurd (cc)

-- A time in the window that ends at `now`.
abbrev pub in_window : ℕ → ℕ → ℕ → Bool
in_window now window t = ltb now (t + window) && leb t now

pub settings-le :
    (settings : Option (Option ℤ × Option ℤ)) {limit minutes : ℕ}
    → window_settings settings ≡ ok (limit, minutes)
    → limit ≤ max_send_limit
unfolding window_settings checked_settings
settings-le none h = absurd (cc)
settings-le (some (l, m)) {limit} h =
    go (in_bounds max_send_limit (or_default l default_send_limit))
      (in_bounds max_send_window_minutes (or_default m default_send_window_minutes))
      (λ n e. in_bounds-le max_send_limit (or_default l default_send_limit) e) h
  where
    go :
        (a b : Option ℕ)
        → ((n : ℕ) → a ≡ some n → n ≤ max_send_limit)
        → {minutes : ℕ} → checked_settings a b ≡ ok (limit, minutes)
        → limit ≤ max_send_limit
    go none b f h = absurd (cc)
    go (some n) none f h = absurd (cc)
    go (some n) (some k) f h = f limit (cc)

-- A later test of times that are past is stronger, and reads them as the window does.
pub is_recent-earlier :
    (now later window last t : ℕ)
    → last ≤ now
    → now ≤ later
    → t ≤ last
    → is_recent later window t ≡ true
    → is_recent now window t ≡ true
is_recent-earlier now later window last t a b l h = ground arith

pub is_recent-now :
    (now later window : ℕ) → now ≤ later → is_recent later window now ≡ ltb later (now + window)
is_recent-now now later window h = ground arith

pub in_window-earlier :
    (now later window t : ℕ)
    → now ≤ later
    → in_window later window t ≡ true
    → ltb now (t + window) ≡ true
in_window-earlier now later window t h k = ground arith

pub not_in_window : (now earlier window : ℕ) → earlier < now → in_window earlier window now ≡ false
not_in_window now earlier window h = ground arith

pub added-short :
    (now : ℕ) (ts : List ℕ) → length ts < max_send_limit → added now ts ≡ ts ++ (now ∷ [])
unfolding added
added-short now ts h =
    let f : ltb max_send_limit (length (ts ++ (now ∷ []))) ≡ false =
      ground (arith, length-append ts (now ∷ [])) in
    rw f refl

pub one-le : (t : Bool) → (if t then 1 else 0) ≤ 1
one-le true = omega arith
one-le false = omega arith

pub Until-append : (b now : ℕ) (ts : List ℕ) → Until b ts → now ≤ b → Until b (ts ++ (now ∷ []))
Until-append b now [] u h = (h, tt)
Until-append b now (t ∷ ts) (l, u) h = (l, Until-append b now ts u h)
