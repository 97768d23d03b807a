-- ===== src/Paths/Relative.antt =====
-- `VMFileSystemRelativePath` and `VMFileSystemPathIsOnMount` (VirtualMachineUtils.c).
use proj.Base.{Bool, ltb}
use proj.Base.{
  List, Option, [], drop, get_or, if◌then◌else◌, leb, length, none, some, suc, zero, ℕ, ◌&&◌, ◌++◌,
  ◌+◌, ◌==◌, ◌||◌, ◌∷◌,
}
use proj.Base.Words.{add32}
use proj.Paths.{delimiter, period, max_path, string_length}
use proj.Vm.State.{Status, failure, invalid_parameter, success}
pub mod Room
pub mod Mount

-- Where the two paths part: `Index`, `DelimiterPosition` (`none` for -1) and what is left of each.
pub record Matched : Type 0 where
  pub index : ℕ
  pub position : Option ℕ
  pub base_left : List ℕ
  pub dest_left : List ℕ

unfoldable pub match_prefix : (base dest : List ℕ) (index : ℕ) (position : Option ℕ) → Matched
match_prefix [] dest index position = record {
  index = index;
  position = position;
  base_left = [];
  dest_left = dest;
}
match_prefix (b ∷ bs) [] index position = record {
  index = index;
  position = position;
  base_left = b ∷ bs;
  dest_left = [];
}
match_prefix (b ∷ bs) (d ∷ ds) index position =
    let rest = match_prefix bs ds (index + 1) (if b == delimiter then some index else position) in
    if b == d
    then rest
    else record { index = index; position = position; base_left = b ∷ bs; dest_left = d ∷ ds }

unfoldable pub count_delimiters : List ℕ → ℕ
count_delimiters [] = 0
count_delimiters (c ∷ cs) = (if c == delimiter then 1 else 0) + count_delimiters cs

-- The bytes that follow a delimiter; `previous` is the byte before the list.
unfoldable pub count_names : (previous : ℕ) → List ℕ → ℕ
count_names previous [] = 0
count_names previous (c ∷ cs) = (if previous == delimiter then 1 else 0) + count_names c cs

-- `Updirectories`, and `destpath` where the rest of the path begins; `none` where there is none.
unfoldable pub route_from : (basepath destpath : List ℕ) → Matched → Option (ℕ × List ℕ)
route_from base dest m =
    if length m.base_left == 0 && (get_or m.dest_left 0 0 == delimiter || length m.dest_left == 0)
    then some (0, m.dest_left)
    else elim m.position [
      | none ↦
          if get_or dest 0 0 == delimiter
          then none
          else some (if length dest == 0 then 0 else 1 + count_delimiters base, dest)
      | some p ↦ some (count_names (get_or base p 0) (drop (p + 1) base), drop p dest)
    ]

-- The loop that writes `../`. The results are `RelPathLength`, `none` where it is too long, and the
-- bytes written.
unfoldable pub write_updirectories :
    (updirectories length_ : ℕ) (written : List ℕ) → Option ℕ × List ℕ
write_updirectories zero len written = (some len, written)
write_updirectories (suc n) len written =
    let rest = write_updirectories n (len + 3) (written ++ (period ∷ period ∷ delimiter ∷ [])) in
    if leb max_path (len + 3) then (none, written) else rest

unfoldable pub begin_path : (updirectories : ℕ) → Option ℕ × List ℕ
begin_path updirectories =
    if updirectories == 0
    then (some 0, period ∷ delimiter ∷ [])
    else write_updirectories updirectories 0 []

-- The rest of the path is copied behind. The results are the status and the bytes written to
-- `relpath`, without a NUL behind them unless it succeeds.
unfoldable pub end_path : (destpath : List ℕ) → Option ℕ × List ℕ → Status × List ℕ
end_path dest (none, written) = (invalid_parameter, written)
end_path dest (some n, written) =
    if leb max_path (add32 (string_length dest) n)
    then (invalid_parameter, written)
    else (success, written ++ dest)

unfoldable pub relative_path : (basepath destpath : List ℕ) → Status × List ℕ
relative_path basepath destpath =
    elim (route_from basepath destpath (match_prefix basepath destpath 0 none)) [
      | none ↦ (failure, [])
      | some (updirectories, dest) ↦
          end_path (if get_or dest 0 0 == delimiter then drop 1 dest else dest)
            (begin_path updirectories)
    ]

-- `RelPath`, of which `junk` is what stood in it.
unfoldable pub buffer_of : (junk : List ℕ) → Status × List ℕ → List ℕ
buffer_of junk (success, written) = written ++ (0 ∷ drop (length written + 1) junk)
buffer_of junk (status, written) = written ++ drop (length written) junk

-- Whether more than the bytes of `RelPath` are written; the NUL is only written where it succeeds.
unfoldable pub overruns : Status × List ℕ → Bool
overruns (success, written) = ltb max_path (length written + 1)
overruns (status, written) = ltb max_path (length written)

-- `none` is a mount point of NULL. There is no status where bytes behind `RelPath` are written.
unfoldable pub path_is_on_mount :
    (junk : List ℕ) → (mntpt : Option (List ℕ)) → (destpath : List ℕ) → Option Status
unfolding relative_path buffer_of overruns
path_is_on_mount junk none dest = some success
path_is_on_mount junk (some mntpt) dest =
    let rel = buffer_of junk (relative_path mntpt dest) in
    if overruns (relative_path mntpt dest)
    then none
    else if get_or rel 0 0 == period
        && (get_or rel 1 0 == period && (get_or rel 2 0 == delimiter || get_or rel 2 0 == 0))
    then some failure
    else some success
