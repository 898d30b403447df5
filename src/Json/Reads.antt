-- ===== src/Json/Reads.antt =====
-- Reading takes bytes off the front: what holds of a turn holds of its loop, and then the loop's
-- fuel is enough.
use aii_plugin_sdk.Prelude.{Option, arith, length, none, refl, some, subst, suc, ℕ, ◌<◌, ◌≡◌}
use aii_plugin_sdk.Prelude.Bytes.{Bytes}
use aii_plugin_sdk.Prelude.Suffix.{
  Suffix, Suffix-refl, Suffix-trans, Suffix-trans_Takes, Takes, Takes-Suffix, Takes-trans_suffix,
  length-Takes,
}
use aii_plugin_sdk.Prelude.Options.{◌>>=◌}
use aii_plugin_sdk.Json.Loop.{
  Run, Shortens, Turn, done, fail, loop, loop-Run, loop_fuel, loop_rule, more, scan,
}

-- What an optional result leaves, if there is one.
pub data Leaves {A : Type 0} (b : Bytes) : Option (A × Bytes) → Type 0 where
  nothing : Leaves b none
  leaves : {a : A} {rest : Bytes} → Suffix b rest → Leaves b (some (a, rest))

pub Leaves-Suffix :
    {A : Type 0} {a b : Bytes} {o : Option (A × Bytes)} → Suffix a b → Leaves b o → Leaves a o
Leaves-Suffix s nothing = nothing
Leaves-Suffix s (leaves l) = leaves (Suffix-trans s l)

-- What a turn of a loop reads: at least a byte. `Left` picks what a finished loop has left.
pub data TurnTakes {S R : Type 0} (left : R → Bytes) (b : Bytes) : Turn S R → Type 0 where
  fails : TurnTakes left b fail
  stops : {r : R} → Takes b (left r) → TurnTakes left b (done r)
  goes_on : {s : S} {rest : Bytes} → Takes b rest → TurnTakes left b (more s rest)

abbrev pub second : {A : Type 0} → A × Bytes → Bytes
second p = p.1

module _ {S R : Type 0} (step : S → Bytes → Turn S R) (left : R → Bytes) where
  -- Every turn reads a byte.
  abbrev pub Reading : Type 0
  Reading = (s : S) (b : Bytes) → TurnTakes left b (step s b)

  turn-more :
      {b : Bytes} {t : Turn S R} {s : S} {b' : Bytes}
      → TurnTakes left b t
      → t ≡ more s b'
      → Takes b b'
  turn-more fails e = absurd (cc)
  turn-more (stops h) e = absurd (cc)
  turn-more {b} (goes_on h) e = subst (Takes b) (cc) h

  turn-done :
      {b : Bytes} {t : Turn S R} {r : R} → TurnTakes left b t → t ≡ done r → Takes b (left r)
  turn-done fails e = absurd (cc)
  turn-done {b} (stops h) e = subst (λ r. Takes b (left r)) (cc) h
  turn-done (goes_on h) e = absurd (cc)

  pub Reading-Shortens : Reading → Shortens step
  Reading-Shortens h s b s' b' e = length-Takes (turn-more (h s b) e)

  -- More fuel than `scan` gives changes nothing.
  pub scan_fuel :
      Reading → (f : ℕ) (s : S) (b : Bytes) → length b < f → loop step f s b ≡ scan step s b
  unfolding scan
  scan_fuel h f s b k = loop_fuel step (Reading-Shortens h) f (suc (length b)) s b k (omega arith)

  -- The loop of the source ends, and `scan` gives what it returns.
  pub scan-Run : Reading → (s : S) (b : Bytes) → Run step s b (scan step s b)
  unfolding scan
  scan-Run h s b = loop-Run step (Reading-Shortens h) (suc (length b)) s b (omega arith)

  pub scan-Takes : Reading → (s : S) (b : Bytes) {r : R} → scan step s b ≡ some r → Takes b (left r)
  unfolding scan
  scan-Takes h s b {r} e =
      loop_rule step (λ s' b'. Suffix b b') (λ r'. Takes b (left r'))
        (λ s' b' r' p t. Suffix-trans_Takes p (turn-done (h s' b') t))
        (λ s' b' s'' b'' p t. Suffix-trans p (Takes-Suffix (turn-more (h s' b') t)))
        (suc (length b)) s b (Suffix-refl b) e

-- An optional rest, with at least a byte read before it if there is one.
pub data Reads (b : Bytes) : Option Bytes → Type 0 where
  stuck : Reads b none
  reads : {rest : Bytes} → Takes b rest → Reads b (some rest)

-- The same with possibly nothing read.
pub data Passes (b : Bytes) : Option Bytes → Type 0 where
  halts : Passes b none
  passes : {rest : Bytes} → Suffix b rest → Passes b (some rest)

pub Reads-Suffix : {a b : Bytes} {o : Option Bytes} → Suffix a b → Reads b o → Reads a o
Reads-Suffix s stuck = stuck
Reads-Suffix s (reads t) = reads (Suffix-trans_Takes s t)

pub Reads-Passes : {b : Bytes} {o : Option Bytes} → Reads b o → Passes b o
Reads-Passes stuck = halts
Reads-Passes (reads t) = passes (Takes-Suffix t)

pub Passes-Suffix : {a b : Bytes} {o : Option Bytes} → Suffix a b → Passes b o → Passes a o
Passes-Suffix s halts = halts
Passes-Suffix s (passes t) = passes (Suffix-trans s t)

pub Reads-some : {b rest : Bytes} {o : Option Bytes} → Reads b o → o ≡ some rest → Takes b rest
Reads-some stuck e = absurd (cc)
Reads-some {b} (reads t) e = subst (Takes b) (cc) t

pub Reads-of :
    {b : Bytes} (o : Option Bytes) → ((rest : Bytes) → o ≡ some rest → Takes b rest) → Reads b o
Reads-of none h = stuck
Reads-of (some rest) h = reads (h rest refl)

-- Reading some bytes and then passing over others is reading.
pub Reads-bind :
    {b : Bytes} {o : Option Bytes} (f : Bytes → Option Bytes)
    → Reads b o
    → ((c : Bytes) → Passes c (f c))
    → Reads b (o >>= f)
Reads-bind f stuck h = stuck
Reads-bind {b} f (reads {rest} t) h = go (f rest) (h rest)
  where
    go : (p : Option Bytes) → Passes rest p → Reads b p
    go none q = stuck
    go (some r) (passes s) = reads (Takes-trans_suffix t s)

pub Passes-bind :
    {b : Bytes} {o : Option Bytes} (f : Bytes → Option Bytes)
    → Passes b o
    → ((c : Bytes) → Passes c (f c))
    → Passes b (o >>= f)
Passes-bind f halts h = halts
Passes-bind f (passes {rest} t) h = Passes-Suffix t (h rest)
