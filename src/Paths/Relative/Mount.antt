-- ===== src/Paths/Relative/Mount.antt =====
-- `VMFileSystemPathIsOnMount` (VirtualMachineUtils.c) answers whether a path is the mount point or below it.
-- A path is another, or goes on behind it with a delimiter.
use proj.Paths.Relative.Room.{follow}
use proj.Paths.Relative.{overruns}
use proj.Paths.Relative.Room.{overruns-relative_path}
use proj.Base.{subst}
use proj.Paths.Relative.{begin_path, end_path, route_from}
use proj.Base.{drop, length-drop, not, sym, ◌≢◌, ◌≤◌}
use proj.Paths.Relative.{count_names, path_is_on_mount, relative_path}
use proj.Paths.Splitting.{ends_with}
use proj.Vm.State.{failure}
use proj.Base.{leb, zero, ◌++◌}
use proj.Base.Words.{add32}
use proj.Paths.{period, made, max_path, string_length}
use proj.Paths.Relative.{buffer_of, write_updirectories}
use proj.Vm.State.{Status, success}
use proj.Base.{ap, if_intro, if◌then◌else◌, suc, ◌∙◌}
use proj.Memory.Alloc.{total}
use proj.Base.{
  Bool, List, Option, [], arith, false, get_or, length, none, refl, some, true, ℕ, ◌&&◌, ◌+◌, ◌<◌,
  ◌==◌, ◌||◌, ◌∷◌, ◌≡◌,
}
use proj.Paths.{delimiter}
use proj.Paths.Relative.{Matched, match_prefix}

unfoldable pub is_under : (mount path : List ℕ) → Bool
is_under [] [] = true
is_under [] (d ∷ ds) = d == delimiter
is_under (m ∷ ms) [] = false
is_under (m ∷ ms) (d ∷ ds) = m == d && is_under ms ds

-- The position of a delimiter before `index`.
abbrev IsBehind : (base : List ℕ) (index : ℕ) → Option ℕ → Type 0
IsBehind base index none = ⊥
IsBehind base index (some p) = (p < index) × (get_or base p 0 ≡ 47)

IsBehind-le :
    (base : List ℕ) (index : ℕ) (o : Option ℕ) → IsBehind base index o → IsBehind base (index + 1) o
IsBehind-le base index none h = h
IsBehind-le base index (some p) h = (omega (arith, h.0), h.1)

-- What the comparison of the paths finds, of which `total` bytes are the mount point's.
abbrev ends_there : Matched → Bool
ends_there m =
    length m.base_left == 0 && (get_or m.dest_left 0 0 == delimiter || length m.dest_left == 0)

abbrev Parted : (base : List ℕ) (total : ℕ) (under : Bool) → Matched → Type 0
Parted base total under m =
    IsBehind base m.index m.position
    × (m.index + length m.base_left ≡ total)
    × (under ≡ ends_there m)

match_prefix-Parted :
    (base bs ds : List ℕ) (index : ℕ) (position : Option ℕ)
    → ((i : ℕ) → get_or base (index + i) 0 ≡ get_or bs i 0)
    → IsBehind base index position
    → Parted base (index + length bs) (is_under bs ds) (match_prefix bs ds index position)
unfolding match_prefix is_under
match_prefix-Parted base [] [] index position same behind = (behind, refl, refl)
match_prefix-Parted base [] (d ∷ ds) index position same behind = (behind, refl, ground arith)
match_prefix-Parted base (b ∷ bs) [] index position same behind = (behind, refl, ground arith)
match_prefix-Parted base (b ∷ bs) (d ∷ ds) index position same behind =
    let here : get_or base index 0 ≡ b = ap (λ i. get_or base i 0) (omega arith) ∙ same 0 in
    let found : IsBehind base (index + 1) (if b == delimiter then some index else position) =
      if_intro (IsBehind base (index + 1)) (b == delimiter)
        (λ is_delimiter. (omega arith, ground (arith, is_delimiter, here)))
        (λ _. IsBehind-le base index position behind) in
    let rest =
      match_prefix-Parted base bs ds (index + 1) _
        (λ i. ap (λ k. get_or base k 0) (omega arith) ∙ same (suc i)) found in
    if_intro (Parted base (index + length (b ∷ bs)) (b == d && is_under bs ds)) (b == d)
      (λ equal. (rest.0, omega (arith, rest.1), rw equal rest.2))
      (λ differs. (behind, refl, rw differs (ground arith)))

-- What `VMFileSystemPathIsOnMount` tests in `RelPath`.
abbrev goes_up : List ℕ → Bool
goes_up rel =
    get_or rel 0 0 == period
    && (get_or rel 1 0 == period && (get_or rel 2 0 == delimiter || get_or rel 2 0 == 0))

updirectories_front :
    (n len : ℕ) (w : List ℕ)
    → (v : List ℕ) × ((write_updirectories n len (period ∷ period ∷ delimiter ∷ w)).1
        ≡ period ∷ period ∷ delimiter ∷ v)
unfolding write_updirectories
updirectories_front zero len w = (w, refl)
updirectories_front (suc n) len w =
    if_intro {A = Option ℕ × List ℕ} (λ r. (v : List ℕ) × (r.1 ≡ period ∷ period ∷ delimiter ∷ v))
      (leb max_path (len + 3)) (λ _. (w, refl))
      (λ _. updirectories_front n (len + 3) (w ++ (period ∷ period ∷ delimiter ∷ [])))

-- Whatever becomes of the rest, the path goes up exactly when `Updirectories` is not 0.
Goes : (junk : List ℕ) (up : Bool) → Status × List ℕ → Type 0
Goes junk up made = goes_up (buffer_of junk made) ≡ up

end_path-Goes :
    (junk dest v : List ℕ) (r : Option ℕ × List ℕ)
    → r.1 ≡ period ∷ period ∷ delimiter ∷ v
    → Goes junk true (end_path dest r)
unfolding Goes buffer_of end_path
end_path-Goes junk dest v (none, w) e = rw e refl
end_path-Goes junk dest v (some n, w) e =
    if_intro (Goes junk true) (leb max_path (add32 (string_length dest) n)) (λ _. rw e refl)
      (λ _. rw e refl)

stays : (junk dest : List ℕ) → Goes junk false (end_path dest (begin_path 0))
unfolding Goes buffer_of end_path begin_path
stays junk dest =
    if_intro (Goes junk false) (leb max_path (add32 (string_length dest) 0)) (λ _. refl) (λ _. refl)

begin_path_front :
    (up : ℕ) → 0 < up → (v : List ℕ) × ((begin_path up).1 ≡ period ∷ period ∷ delimiter ∷ v)
unfolding begin_path write_updirectories
begin_path_front zero h = elim h [ ]
begin_path_front (suc n) h =
    let (v, e) = updirectories_front n 3 [] in
    let some_up : (suc n == 0) ≡ false = ground arith in (v, rw some_up e)

goes : (junk dest : List ℕ) (up : ℕ) → 0 < up → Goes junk true (end_path dest (begin_path up))
goes junk dest up h =
    let (v, e) = begin_path_front up h in end_path-Goes junk dest v (begin_path up) e

count_names_first :
    (previous : ℕ) (s : List ℕ) → previous ≡ 47 → 0 < length s → 0 < count_names previous s
unfolding count_names
count_names_first previous [] e h = elim h [ ]
count_names_first previous (c ∷ s) e h = ground (arith, e)

get_or-ends_with : (c : ℕ) (cs : List ℕ) → get_or (c ∷ cs) (length cs) 0 ≡ ends_with c cs
get_or-ends_with c [] = refl
get_or-ends_with c (d ∷ cs) = get_or-ends_with d cs

-- Behind a delimiter before the end of a mount point there is a name.
name_behind :
    (cs : List ℕ) (index : ℕ) (position : Option ℕ)
    → ends_with delimiter cs ≢ 47
    → index ≤ length (delimiter ∷ cs)
    → IsBehind (delimiter ∷ cs) index position
    → (p : ℕ) × (position ≡ some p)
      × (0 < count_names (get_or (delimiter ∷ cs) p 0) (drop (p + 1) (delimiter ∷ cs)))
name_behind cs index none inner inside behind = elim behind [ ]
name_behind cs index (some p) inner inside (before, is_delimiter) =
    let end = get_or-ends_with delimiter cs in
    let apart : p ≢ length cs =
      λ e. inner (sym end ∙ ap (λ i. get_or (delimiter ∷ cs) i 0) (sym e) ∙ is_delimiter) in
    (
      p,
      refl,
      count_names_first _ (drop (p + 1) (delimiter ∷ cs)) is_delimiter
          (omega (arith, apart, before, inside, length-drop (p + 1) (delimiter ∷ cs))),
    )

route_from_lem :
    (junk cs dest : List ℕ) (under : Bool) (m : Matched)
    → ends_with delimiter cs ≢ 47
    → Parted (delimiter ∷ cs) (length (delimiter ∷ cs)) under m
    → Goes junk (not under) (follow (route_from (delimiter ∷ cs) dest m))
unfolding route_from
route_from_lem junk cs dest under m inner (behind, total, agrees) =
    if_intro (λ o. Goes junk (not under) (follow o)) (ends_there m)
      (λ there.
        subst (λ b. Goes junk (not b) (follow (some (0, m.dest_left)))) (sym (agrees ∙ there))
          (stays junk _))
      (λ away.
        let (p, at, up) = name_behind cs m.index m.position inner (omega (arith, total)) behind in
        rw (at, agrees ∙ away) (goes junk _ _ up))

one_more : (i : ℕ) → 1 + i ≡ suc i
one_more i = omega arith

verdict :
    (under : Bool)
    → (if not under then some failure else some success) ≡ some (if under then success else failure)
verdict true = refl
verdict false = refl

-- For two absolute paths, the mount point not ending in a delimiter and the path of at most 253
-- bytes, VMFileSystemPathIsOnMount writes no byte behind its buffer, and succeeds exactly when the
-- path is the mount point or goes on behind it with a delimiter, whatever stood in its buffer.
pub path_is_on_mount-is_under :
    (junk cs ds : List ℕ)
    → ends_with delimiter cs ≢ 47
    → length (delimiter ∷ ds) ≤ 253
    → path_is_on_mount junk (some (delimiter ∷ cs)) (delimiter ∷ ds)
      ≡ some (if is_under (delimiter ∷ cs) (delimiter ∷ ds) then success else failure)
unfolding path_is_on_mount Goes is_under match_prefix relative_path
path_is_on_mount-is_under junk cs ds inner short =
    let base = delimiter ∷ cs in
    let m = match_prefix cs ds 1 (some 0) in
    let under = is_under cs ds in
    let parted : Parted base (length base) under m =
      let h =
        match_prefix-Parted base cs ds 1 (some 0) (λ i. ap (λ k. get_or base k 0) (one_more i))
          (omega arith, refl) in
      (h.0, omega (arith, h.1), h.2) in
    let answer : goes_up (buffer_of junk (follow (route_from base (delimiter ∷ ds) m)))
        ≡ not under =
      route_from_lem junk cs (delimiter ∷ ds) under m inner parted in
    let room : overruns (follow (route_from base (delimiter ∷ ds) m)) ≡ false =
      overruns-relative_path base (delimiter ∷ ds) short in
    rw room (ap (λ b. if b then some failure else some success) answer ∙ verdict under)
