-- ===== src/Examples/HttpSend.antt =====
-- The shared HTTP pieces at concrete texts.
use mkqd.Base.{◌≡◌, refl, Bytes, codes, arith, List, [], ◌∷◌, ◌++◌, length, ◌≤◌, ◌<◌, ◌+◌, false}
use mkqd.Base.Int.{negsuc}
use mkqd.HttpSend.Decimal.{format_int}
use mkqd.HttpSend.Truncation.{spelled, truncate_runes}
use mkqd.HttpSend.{Body, truncate, truncated_mark, back_up, is_rune_start}

minus_forty : format_int (negsuc 39) ≡ codes "-40"
unfolding format_int
minus_forty = refl

-- Two runes of three bytes.
abbrev kana : List Bytes
kana = (0xe3 ∷ 0x81 ∷ 0x82 ∷ []) ∷ (0xe3 ∷ 0x81 ∷ 0x84 ∷ []) ∷ []

kana_cut : truncate (spelled kana) 5 ≡ (0xe3 ∷ 0x81 ∷ 0x82 ∷ []) ++ truncated_mark
unfolding truncate back_up is_rune_start
kana_cut = refl

truncate_runes_example :
    (ks : List Bytes) × (ms : List Bytes) × (kana ≡ ks ++ ms)
    × (truncate (spelled kana) 5 ≡ spelled ks ++ truncated_mark)
    × (length (spelled ks) ≤ 5)
    × (5 < length (spelled ks) + 4)
unfolding is_rune_start
truncate_runes_example =
    truncate_runes kana 5
      ((refl, (refl, (refl, tt)), omega arith), ((refl, (refl, (refl, tt)), omega arith), tt))
      (omega arith)

abbrev body : Body
body = record { bytes = codes "{}"; fails = false }
