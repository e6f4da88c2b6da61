-- ===== src/Types.antt =====
-- include/sancus/types.h: conversions that check the range. Of the families that the macros declare,
-- those between integers and from text to integers are modelled, those to floating point are not.
pub mod Exact
pub mod Range
mod Tests
use sancus_core.Base.{
  ℕ, ◌-◌, ◌%◌, ◌^◌, Bool, true, false, ◌&&◌, Option, none, some, ◌==◌, if◌then◌else◌,
}
use sancus_core.Base.Int.{ℤ, pos, negsuc, leb_ℤ}
use sancus_core.Base.Memory.{Bytes, get_byte}
use sancus_core.Base.Outcome.{Outcome, ok, assert, ◌>>◌}
use sancus_core.Time.{to_int}

-- `DECL_SANCUS_GET_CONVERTED`: the function that asserts the test, and the one that returns it and
-- stores the value where the test holds and `out` is not NULL.
abbrev pub converted : Bool → ℤ → Outcome ℤ
converted test fn = assert test >> ok fn

abbrev pub get_converted : Bool → ℤ → Option ℤ → Bool × Option ℤ
get_converted true fn none = (true, none)
get_converted true fn (some old) = (true, some fn)
get_converted false fn out = (false, out)

-- `(v >= a) && (v <= b)`
abbrev pub within : ℤ → ℤ → ℤ → Bool
within v a b = leb_ℤ a v && leb_ℤ v b

-- The conversions to `int` within a range: `drl`, `drll`, `drzu` and `drzd`.
unfoldable pub drl : ℤ → ℤ → ℤ → Outcome ℤ
drl v a b = converted (within v a b) (to_int v)

unfoldable pub get_drl : ℤ → ℤ → ℤ → Option ℤ → Bool × Option ℤ
get_drl v a b out = get_converted (within v a b) (to_int v) out

-- The cast to an unsigned type of `w` bits.
abbrev pub to_uint : ℕ → ℤ → ℤ
to_uint w (pos n) = pos (n % 2 ^ w)
to_uint w (negsuc n) = pos (2 ^ w - 1 - n % 2 ^ w)

-- The conversions to `unsigned` within a range: `urll`, `urzu` and `urzd`.
unfoldable pub url : ℤ → ℤ → ℤ → Outcome ℤ
url v a b = converted (within v a b) (to_uint 32 v)

unfoldable pub get_url : ℤ → ℤ → ℤ → Option ℤ → Bool × Option ℤ
get_url v a b out = get_converted (within v a b) (to_uint 32 v) out

-- `DECL_SANCUS_uint`: the conversions to `uint8_t`, `uint16_t` and `uint32_t`. The test of
-- `DECL_SANCUS_uintu`, whose argument is unsigned, is the same.
unfoldable pub uint : ℕ → ℤ → Outcome ℤ
uint w v = converted (within v (pos 0) (pos (2 ^ w - 1))) (to_uint w v)

unfoldable pub get_uint : ℕ → ℤ → Option ℤ → Bool × Option ℤ
get_uint w v out = get_converted (within v (pos 0) (pos (2 ^ w - 1))) (to_uint w v) out

-- `strtol` and its kin: the number, and the offset of what is behind it.
abbrev pub Strto : Type 0
Strto = Bytes → ℤ × ℕ

-- `DECL_SANCUS_STRTO`: the result, and the number that is stored in any case.
unfoldable pub get_ls : Strto → Option Bytes → Bool × ℤ
get_ls strto none = (false, pos 0)
get_ls strto (some s) =
    if get_byte s 0 == 0 then (false, pos 0) else (get_byte s (strto s).1 == 0, (strto s).0)

-- `DECL_SANCUS_GELE_STRTO`, for `int`.
unfoldable pub get_drls : Strto → Option Bytes → ℤ → ℤ → Option ℤ → Bool × Option ℤ
get_drls strto s a b out =
    if (get_ls strto s).0 then get_drl (get_ls strto s).1 a b out else (false, out)

-- `DECL_SANCUS_GELE_STRTO`, for `unsigned`, with `strtoll`.
unfoldable pub get_urlls : Strto → Option Bytes → ℤ → ℤ → Option ℤ → Bool × Option ℤ
get_urlls strto s a b out =
    if (get_ls strto s).0 then get_url (get_ls strto s).1 a b out else (false, out)

-- `INT_MIN` and `INT_MAX`
abbrev pub int_min : ℤ
int_min = negsuc (2 ^ 31 - 1)

abbrev pub int_max : ℤ
int_max = pos (2 ^ 31 - 1)

-- `DECL_SANCUS_GELE_STRTO_K`: `sancus_get_ds`.
unfoldable pub get_ds : Strto → Option Bytes → Option ℤ → Bool × Option ℤ
get_ds strto s out =
    get_converted ((get_ls strto s).0 && within (get_ls strto s).1 int_min int_max)
      (to_int (get_ls strto s).1) out
