-- ===== src/Runtime/Stamp.antt =====
-- The texts in which sidecar/ibreeze/runtime/scheduler.py and sidecar/ibreeze/workers/analysis.py keep
-- instants. A text is a day, the character between day and clock, and the clock; both layouts have a
-- fixed width up to that character, so SQLite, which compares texts from the left, compares the three
-- in this order.
use i_breeze.Prelude.{ℕ, ltb, ◌==◌, Bool, true, false, ◌&&◌, ◌||◌, Option, none, some, ◌≡◌, arith}

pub record Stamp : Type 0 where
  pub day : ℕ
  pub separator : ℕ
  pub clock : ℕ

-- The character code of `T`, which `_now` writes, and of the blank, which SQLite's `datetime` writes.
abbrev pub letter_t : ℕ
letter_t = 84

abbrev pub blank : ℕ
blank = 32

-- `a < b`
unfoldable pub earlier : Stamp → Stamp → Bool
earlier a b =
    ltb a.day b.day
    || (a.day == b.day
        && (ltb a.separator b.separator || (a.separator == b.separator && ltb a.clock b.clock)))

-- `a < b`, NULLS FIRST
unfoldable pub earlier_null : Option Stamp → Option Stamp → Bool
unfolding earlier
earlier_null none none = false
earlier_null none (some b) = true
earlier_null (some a) none = false
earlier_null (some a) (some b) = earlier a b

pub earlier_trans : (a b c : Stamp) → earlier a b ≡ true → earlier b c ≡ true → earlier a c ≡ true
unfolding earlier
earlier_trans a b c p q = ground arith

pub earlier_weak : (a b c : Stamp) → earlier a b ≡ false → earlier b c ≡ false → earlier a c ≡ false
unfolding earlier
earlier_weak a b c p q = ground arith

pub earlier_irrefl : (a : Stamp) → earlier a a ≡ false
unfolding earlier
earlier_irrefl a = ground arith

pub earlier_null_trans :
    (a b c : Option Stamp)
    → earlier_null a b ≡ true
    → earlier_null b c ≡ true
    → earlier_null a c ≡ true
unfolding earlier_null
earlier_null_trans a b none p q = ground arith
earlier_null_trans a none (some z) p q = ground arith
earlier_null_trans none (some y) (some z) p q = ground arith
earlier_null_trans (some x) (some y) (some z) p q = earlier_trans x y z p q

pub earlier_null_weak :
    (a b c : Option Stamp)
    → earlier_null a b ≡ false
    → earlier_null b c ≡ false
    → earlier_null a c ≡ false
unfolding earlier_null
earlier_null_weak a b none p q = ground arith
earlier_null_weak a none (some z) p q = ground arith
earlier_null_weak none (some y) (some z) p q = ground arith
earlier_null_weak (some x) (some y) (some z) p q = earlier_weak x y z p q
