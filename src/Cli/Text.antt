-- ===== src/Cli/Text.antt =====
-- cmd/mkqd/inspect.go: what the tables show of a job. Texts here are lists of runes.
use mkqd.Base.{
  ℕ, ◌≤◌, ◌+◌, ◌≢◌, Bool, true, false, not, ◌&&◌, [], ◌∷◌, ◌++◌, Bytes, codes, is_empty, bytes_eq,
  length, length-append, length-take-le, if-elim, zero, suc, take, map, leb, ◌==◌, All, arith,
  if◌then◌else◌,
}
use mkqd.Cli.View.{JobView}

abbrev pub flatten : ℕ → ℕ
flatten c = if c == b'\n' then b' ' else c

abbrev pub ellipsis : Bytes
ellipsis = codes "..."

-- truncate.
unfoldable pub truncate : Bytes → ℕ → Bytes
truncate s n =
    let flat = map flatten s in if leb (length flat) n then flat else take n flat ++ ellipsis

-- summarise.
unfoldable pub summarise : JobView → Bytes
unfolding truncate
summarise j =
    if not (is_empty j.state.failed_reason)
    then truncate j.state.failed_reason 60
    else if not (is_empty j.state.return_value)
        && not (bytes_eq j.state.return_value (codes "null"))
    then truncate j.state.return_value 60
    else []

-- yesNo.
unfoldable pub yes_no : Bool → Bytes
yes_no true = codes "yes"
yes_no false = codes "no"

-- status.
unfoldable pub status : Bool → Bytes
status true = codes "paused"
status false = codes "running"

abbrev pub IsOneLine : Bytes → Type 0
IsOneLine = All (λ c. c ≢ b'\n')

flatten-ne : (c : ℕ) → flatten c ≢ b'\n'
flatten-ne c = ground arith

map-flatten-IsOneLine : (s : Bytes) → IsOneLine (map flatten s)
map-flatten-IsOneLine [] = tt
map-flatten-IsOneLine (c ∷ s) = (flatten-ne c, map-flatten-IsOneLine s)

take-IsOneLine :
    (n : ℕ) (s rest : Bytes) → IsOneLine s → IsOneLine rest → IsOneLine (take n s ++ rest)
take-IsOneLine zero s rest h k = k
take-IsOneLine (suc n) [] rest h k = k
take-IsOneLine (suc n) (c ∷ s) rest h k = (h.0, take-IsOneLine n s rest h.1 k)

dot : ◌≢◌ {A = ℕ} b'.' b'\n'
dot = ground arith

truncate_lem : (s : Bytes) (n : ℕ) → (length (truncate s n) ≤ n + 3) × IsOneLine (truncate s n)
unfolding truncate
truncate_lem s n =
    if-elim (λ r. (length r ≤ n + 3) × IsOneLine r) (leb (length (map flatten s)) n) (map flatten s)
      (take n (map flatten s) ++ ellipsis) (λ h. (ground (arith, h), map-flatten-IsOneLine s))
      (λ _. (
        omega (
          arith,
          length-append (take n (map flatten s)) ellipsis,
          length-take-le n (map flatten s),
        ),
        take-IsOneLine n (map flatten s) ellipsis (map-flatten-IsOneLine s) (dot, (dot, (dot, tt))),
      ))

-- A text that fits a cell of the table.
abbrev pub IsCell : Bytes → Type 0
IsCell r = (length r ≤ 63) × IsOneLine r

-- What a table shows of a job is one line of at most 63 runes.
pub summarise_lem : (j : JobView) → IsCell (summarise j)
unfolding summarise
summarise_lem j =
    if-elim IsCell (not (is_empty j.state.failed_reason)) _ _
      (λ _. truncate_lem j.state.failed_reason 60)
      (λ _.
        if-elim IsCell
          (not (is_empty j.state.return_value)
            && not (bytes_eq j.state.return_value (codes "null")))
          _ [] (λ _. truncate_lem j.state.return_value 60) (λ _. (ground arith, tt)))
