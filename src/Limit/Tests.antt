-- ===== src/Limit/Tests.antt =====
-- Runs of the limiter, with numbers for keys.
use tgin.Prelude.{
  ℕ, ◌+◌, ◌-◌, ◌*◌, ◌^◌, ◌≤◌, ◌≡◌, refl, none, some, List, [], ◌∷◌, get_elem?, arith, ok,
}
use tgin.Prelude.Eq.{nat_eq}
use tgin.Prelude.Words.{wrapping_add}
use tgin.Time.{checked_add}
use tgin.Containers.KeyMap
use tgin.Limit.Quota.{Quota, at, book, book_at, interval, IsCeiling, interval-IsCeiling}
use tgin.Limit.Keyed.{
  KeyedLimiter, Admit, acquire, settle, cancel, retain_recent, retain, entry, tat_of,
}
use tgin.Limit.Conform.{Call, starts, starts-spaced}
use tgin.Limit.Stale.{Move, acquires, retains, after_moves, cancel-stale}
use tgin.Limit.Undo.{cancel-acquire, retain_recent-book}

abbrev last : ℕ
last = 2 ^ 63

abbrev hash : ℕ → ℕ
hash key = key

-- An interval of 100, two at once.
abbrev quota : Quota
quota = record { interval = 100; tolerance = 100 }

abbrev fresh : KeyedLimiter ℕ
fresh = record { quota = quota; shards = λ _. record { map = []; next_stamp = 0 } }

interval-IsCeiling_example : IsCeiling 3 1000 (interval 3 1000)
interval-IsCeiling_example = interval-IsCeiling 3 1000 (omega arith) (omega arith)

abbrev calls : List (Call ℕ)
calls =
    record { key = 7; now = 1000; max_delay = 500 }
    ∷ record { key = 7; now = 1000; max_delay = 500 }
    ∷ record { key = 8; now = 1001; max_delay = 0 }
    ∷ record { key = 7; now = 1002; max_delay = 500 }
    ∷ []

first_start : get_elem? (starts hash last 7 calls fresh) 0 ≡ some 1000
unfolding starts acquire settle book book_at checked_add KeyMap.get KeyMap.insert
first_start = refl

third_start : get_elem? (starts hash last 7 calls fresh) 2 ≡ some 1100
unfolding starts acquire settle book book_at checked_add KeyMap.get KeyMap.insert
third_start = refl

starts-spaced_example : 1000 + (2 - 0) * 100 ≤ 1100 + 100
starts-spaced_example =
    starts-spaced hash last 7 calls fresh 0 2 1000 1100 (omega arith) first_start third_start

abbrev first_admit : Admit
first_admit = record { delay = 0; stamp = 0; prev = none }

abbrev second_admit : Admit
second_admit = record { delay = 0; stamp = 2; prev = some (record { tat = at 1100; stamp = 0 }) }

first_acquired : (acquire hash last 7 1000 0 fresh).1 ≡ ok first_admit
unfolding acquire settle book book_at checked_add KeyMap.get
first_acquired = refl

-- Another key books in between.
abbrev between : List (Move ℕ)
between = acquires 23 1000 0 ∷ retains 1000 ∷ []

second_acquired :
    (acquire hash last 7 1000 0
      (after_moves hash last between (acquire hash last 7 1000 0 fresh).0)).1
    ≡ ok second_admit
unfolding acquire settle book book_at checked_add KeyMap.get KeyMap.insert wrapping_add
    retain_recent retain
second_acquired = refl

cancel-acquire_example :
    entry hash 7 (cancel hash 7 first_admit (acquire hash last 7 1000 0 fresh).0)
    ≡ entry hash 7 fresh
cancel-acquire_example = cancel-acquire hash last 7 1000 0 fresh first_admit first_acquired 7

abbrev twice : KeyedLimiter ℕ
twice = (acquire hash last 7 1000 0 (acquire hash last 7 1000 0 fresh).0).0

abbrev thrice : KeyedLimiter ℕ
thrice =
    after_moves hash last (acquires 7 2000 0 ∷ [])
      (acquire hash last 7 1000 0
        (after_moves hash last between (acquire hash last 7 1000 0 fresh).0)).0

cancel-stale_example : cancel hash 7 first_admit thrice ≡ thrice
cancel-stale_example =
    cancel-stale hash last 7 1000 0 1000 0 between (acquires 7 2000 0 ∷ []) fresh first_admit
      second_admit (omega arith) first_acquired second_acquired

retain_recent-book_example :
    book last twice.quota (tat_of (entry hash 7 (retain_recent hash 5000 twice))) 6000 0
    ≡ book last twice.quota (tat_of (entry hash 7 twice)) 6000 0
retain_recent-book_example = retain_recent-book hash last 5000 6000 0 7 twice (omega arith)
