-- ===== src/TimeFrame/Names.antt =====
-- The names of the intervals are read back.
use Prim.Native.String.{String}
use text.Mathlib.TextEquality.{eq_iff}
use hyperliquid_rust_bot.Prelude.{◌≡◌, refl, some, List, [], ◌∷◌, arith, All}
use hyperliquid_rust_bot.TimeFrame.{
  TimeFrame, min1, min3, min5, min15, min30, hour1, hour2, hour4, hour12, day1, day3, week, month,
  as_str, from_str, arms, first_arm,
}

-- Each interval is read back from its name.
from_str-as_str : (tf : TimeFrame) → from_str (as_str tf) ≡ some tf
unfolding from_str as_str
from_str-as_str min1 = refl
from_str-as_str min3 = refl
from_str-as_str min5 = refl
from_str-as_str min15 = refl
from_str-as_str min30 = refl
from_str-as_str hour1 = refl
from_str-as_str hour2 = refl
from_str-as_str hour4 = refl
from_str-as_str hour12 = refl
from_str-as_str day1 = refl
from_str-as_str day3 = refl
from_str-as_str week = refl
from_str-as_str month = refl

first_arm-as_str :
    (s : String) (l : List (String × TimeFrame)) (tf : TimeFrame)
    → All (λ (a : String × TimeFrame). a.0 ≡ as_str a.1) l
    → first_arm s l ≡ some tf
    → s ≡ as_str tf
unfolding first_arm
first_arm-as_str s [] tf h e = cc
first_arm-as_str s ((name, t) ∷ l) tf (h, hs) e =
    ground (arith, eq_iff s name, first_arm-as_str s l tf hs)

-- If `from_str` takes a text for a timeframe, the text is the name that `as_str` gives that timeframe: no
-- other text names it.
pub as_str-from_str : (s : String) (tf : TimeFrame) → from_str s ≡ some tf → s ≡ as_str tf
unfolding from_str as_str
as_str-from_str s tf = first_arm-as_str s arms tf (ground arith)
