-- ===== src/Base/Utf8.antt =====
-- Go's strings as runes: UTF-8 as the language decodes it, with U+FFFD for a byte that begins no rune.
use Prim.Native.Nat.{ℕ, zero, suc, ◌+◌, ◌*◌, ◌%◌}
use mathlib.Core.Bool.{Bool, ◌&&◌}
use mathlib.Core.List.{List, [], ◌∷◌}
use istio_csr.Base.Tests.{nat_beq, ltb, leb, if◌then◌else◌}
use istio_csr.Base.Text.{Str}

-- A byte of a string; 0, which continues no rune, past the end.
unfoldable pub byte_at : Str → ℕ → ℕ
byte_at [] n = 0
byte_at (b ∷ bs) zero = b
byte_at (b ∷ bs) (suc n) = byte_at bs n

abbrev is_between : ℕ → ℕ → ℕ → Bool
is_between low high b = leb low b && leb b high

abbrev continues : ℕ → Bool
continues b = is_between 0x80 0xBF b

-- The rune that begins with a byte, and how many of the bytes behind that one it takes.
unfoldable pub rune_at : ℕ → Str → ℕ × ℕ
unfolding byte_at
rune_at b bs =
    let c = byte_at bs 0 in
    let d = byte_at bs 1 in
    let e = byte_at bs 2 in
    let low = if nat_beq b 0xE0 then 0xA0 else if nat_beq b 0xF0 then 0x90 else 0x80 in
    let high = if nat_beq b 0xED then 0x9F else if nat_beq b 0xF4 then 0x8F else 0xBF in
    if ltb b 0x80
    then (b, 0)
    else if is_between 0xC2 0xDF b && continues c
    then (b % 32 * 64 + c % 64, 1)
    else if is_between 0xE0 0xEF b && (is_between low high c && continues d)
    then (b % 16 * 4096 + c % 64 * 64 + d % 64, 2)
    else if is_between 0xF0 0xF4 b && (is_between low high c && (continues d && continues e))
    then (b % 8 * 262144 + c % 64 * 4096 + d % 64 * 64 + e % 64, 3)
    else (0xFFFD, 0)

-- The runes behind some bytes that the last one took.
unfoldable pub runes_after : ℕ → Str → List ℕ
unfolding rune_at
runes_after skipped [] = []
runes_after zero (b ∷ bs) = let (r, more) = rune_at b bs in r ∷ runes_after more bs
runes_after (suc skipped) (b ∷ bs) = runes_after skipped bs

abbrev pub decode_runes : Str → List ℕ
decode_runes s = runes_after 0 s
