-- ===== src/TimeFrame.antt =====
-- src/trade_setup.rs: the candle intervals, their lengths and their names.
pub mod Names
pub mod Lengths
mod Tests
use Prim.Native.String.{String}
use text.Mathlib.Text.{◌==◌ as str_eq}
use hyperliquid_rust_bot.Prelude.{
  ℕ, ◌*◌, ◌≡◌, ◌↔◌, Bool, true, false, Option, none, some, List, [], ◌∷◌, arith, if◌then◌else◌,
  ◌==◌,
}
use hyperliquid_rust_bot.Prelude.Maps.{Eq}

pub data TimeFrame : Type 0 where
  min1 min3 min5 min15 min30 hour1 hour2 hour4 hour12 day1 day3 week month : TimeFrame

unfoldable pub to_secs : TimeFrame → ℕ
to_secs min1 = 60
to_secs min3 = 3 * 60
to_secs min5 = 5 * 60
to_secs min15 = 15 * 60
to_secs min30 = 30 * 60
to_secs hour1 = 60 * 60
to_secs hour2 = 2 * 60 * 60
to_secs hour4 = 4 * 60 * 60
to_secs hour12 = 12 * 60 * 60
to_secs day1 = 24 * 60 * 60
to_secs day3 = 3 * 24 * 60 * 60
to_secs week = 7 * 24 * 60 * 60
to_secs month = 30 * 24 * 60 * 60

unfoldable pub to_millis : TimeFrame → ℕ
unfolding to_secs
to_millis tf = to_secs tf * 1000

unfoldable pub available_tfs : List TimeFrame
available_tfs =
    min1 ∷ min3 ∷ min5 ∷ min15 ∷ min30 ∷ hour1 ∷ hour2 ∷ hour4 ∷ hour12 ∷ day1 ∷ day3 ∷ week ∷ month
    ∷ []

unfoldable pub as_str : TimeFrame → String
as_str min1 = "1m"
as_str min3 = "3m"
as_str min5 = "5m"
as_str min15 = "15m"
as_str min30 = "30m"
as_str hour1 = "1h"
as_str hour2 = "2h"
as_str hour4 = "4h"
as_str hour12 = "12h"
as_str day1 = "1d"
as_str day3 = "3d"
as_str week = "1w"
as_str month = "1M"

-- The arms of the match in `from_str`, in order.
arms : List (String × TimeFrame)
arms =
    ("1m", min1)
    ∷ ("3m", min3)
    ∷ ("5m", min5)
    ∷ ("15m", min15)
    ∷ ("30m", min30)
    ∷ ("1h", hour1)
    ∷ ("2h", hour2)
    ∷ ("4h", hour4)
    ∷ ("12h", hour12)
    ∷ ("1d", day1)
    ∷ ("3d", day3)
    ∷ ("1w", week)
    ∷ ("1M", month)
    ∷ []

first_arm : String → List (String × TimeFrame) → Option TimeFrame
first_arm s [] = none
first_arm s ((name, tf) ∷ rest) =
    let later = first_arm s rest in if str_eq s name then some tf else later

-- `none` for the error.
unfoldable pub from_str : String → Option TimeFrame
unfolding arms first_arm
from_str s = first_arm s arms

-- The position of an interval among the constructors, by which intervals are compared.
abbrev pub index : TimeFrame → ℕ
index min1 = 0
index min3 = 1
index min5 = 2
index min15 = 3
index min30 = 4
index hour1 = 5
index hour2 = 6
index hour4 = 7
index hour12 = 8
index day1 = 9
index day3 = 10
index week = 11
index month = 12

abbrev pub tf_beq : TimeFrame → TimeFrame → Bool
tf_beq a b = index a == index b

pub tf_beq_iff : (a b : TimeFrame) → (tf_beq a b ≡ true) ↔ (a ≡ b)
tf_beq_iff a b = ground arith

instance abbrev pub tf_eq : Eq TimeFrame
tf_eq = record { beq = tf_beq; beq_iff = tf_beq_iff }
