-- ===== src/Vm/Files.antt =====
-- The file calls of VirtualMachine.cpp. The request to the machine (`MachineFileOpen` and the like) is
-- served by another process, which ends in `fileCallback`; what a call does when its thread runs again
-- is a function of its own. `shareid` is the pool of the shared memory.
use proj.Memory.{place}
use proj.Memory.Alloc.{total}
pub mod Transfers
pub mod Rounds
pub mod Sharing
use proj.Base.{
  List, Option, drop, if◌then◌else◌, leb, length, ltb, min, none, some, suc, take, zero, ℕ, ◌*◌,
  ◌++◌, ◌+◌, ◌-◌, ◌==◌, ◌∷◌,
}
use proj.Base.Int.{negsuc, pos, ℤ, ◌+ℤ◌}
use proj.Base.Words.{null}
use proj.Fat.Files.{contents, endless, failed, read_from_file, unset}
use proj.Base.Strings.{c_string, string_eq}
use proj.Kernel.Scheduler.{scheduler}
use proj.Kernel.State.{set_state, setcd, waiting}
use proj.Vm.Directories.{find_dir, slash}
use proj.Vm.Pools.{vm_memory_pool_allocate, vm_memory_pool_deallocate}
use proj.Vm.State.{
  Outcome, Status, Vm, failure, invalid_parameter, resume, returned, success, suspend, switch_to,
  undefined, with_kernel,
}
use proj.Base.{[]}

unfoldable pub strip_spaces : List ℕ → List ℕ
strip_spaces [] = []
strip_spaces (c ∷ cs) = let rest = strip_spaces cs in if c == b' ' then rest else c ∷ rest

-- The name that `VMFileOpen` asks the machine for.
unfoldable pub slash_file_name : (cur_path filename : List ℕ) → List ℕ
unfolding strip_spaces
slash_file_name cur_path filename =
    if string_eq cur_path slash
    then strip_spaces (cur_path ++ filename)
    else strip_spaces (cur_path ++ (slash ++ filename))

-- After a request the thread waits, and another runs.
unfoldable pub wait_for_machine : Vm → Outcome
wait_for_machine v = switch_to v (scheduler (set_state v.kernel v.kernel.tr waiting))

-- `setcd` of the running thread.
abbrev pub with_cd : Vm → ℤ → Vm
with_cd v n = with_kernel v (setcd v.kernel v.kernel.tr n)

abbrev pub cd_of : Vm → ℤ
cd_of v = (v.kernel.thread v.kernel.tr).cd

-- A string made from a NULL pointer is undefined. The results are the name asked for and the outcome.
unfoldable pub vm_file_open :
    Vm → Option (List ℕ) → (filedescriptor : ℕ) → Option (List ℕ) × Outcome
unfolding slash_file_name wait_for_machine
vm_file_open v₀ filename filedescriptor = elim filename [
  | none ↦ (none, undefined)
  | some name ↦
      let v = with_cd (suspend v₀) (negsuc 17) in
      if filedescriptor == null
      then (none, returned invalid_parameter none (resume v))
      else (some (slash_file_name v.cur_path name), wait_for_machine v)
]

-- The end of `VMFileOpen`, with the descriptor that is stored.
unfoldable pub file_opened : ℤ → Vm → Outcome
file_opened (pos n) v = returned success (some n) (resume v)
file_opened (negsuc n) v = returned failure none (resume v)

unfoldable pub vm_file_close : Vm → Outcome
unfolding wait_for_machine
vm_file_close v = wait_for_machine (with_cd (suspend v) (pos 1))

-- The end of `VMFileClose`, and of the other calls but for what they store: a negative result fails.
unfoldable pub file_done : ℤ → Vm → Outcome
file_done (pos n) v = returned success none (resume v)
file_done (negsuc n) v = returned failure none (resume v)

unfoldable pub vm_file_seek : Vm → Outcome
unfolding wait_for_machine
vm_file_seek v = wait_for_machine (with_cd (suspend v) (negsuc 727))

-- The end of `VMFileSeek`: the offset that is stored through `newoffset`, if any, and the outcome.
unfoldable pub file_sought : Vm → (newoffset : ℕ) → Option ℤ × Outcome
unfolding file_done
file_sought v newoffset =
    (if newoffset == null then none else some (cd_of v), file_done (cd_of v) v)

-- A round of the loops that allocate in the shared memory, `length_` being positive or 0.
unfoldable pub share_round : Vm → (shareid length_ : ℕ) → Status × Option ℕ × Outcome
share_round v shareid length_ =
    let (test, loc, v₁) = vm_memory_pool_allocate (resume v) shareid (min length_ 512) 1 in
    let v₂ = suspend v₁ in (test, loc, switch_to v₂ (scheduler v₂.kernel))

-- The beginning of `VMFileWrite`, up to the first round of the loop. `data` and `length` are read
-- before they are compared with NULL, and a string longer than `length` is copied past its buffer.
unfoldable pub vm_file_write :
    Vm
    → (shareid : ℕ) → (data_ : Option (List ℕ)) → (length_ : Option ℤ) → Status × Option ℕ × Outcome
unfolding share_round
vm_file_write v shareid (some data_) (some (pos len)) =
    let start = share_round (with_cd (suspend v) (negsuc 738)) shareid len in
    if leb (length (c_string data_)) len then start else (failure, none, undefined)
vm_file_write v shareid (some data_) (some (negsuc n)) = (failure, none, undefined)
vm_file_write v shareid none length_ = (failure, none, undefined)
vm_file_write v shareid (some data_) none = (failure, none, undefined)

-- The blocks of the loops of `VMFileWrite`: the bytes that round `i` and the following ones copy to
-- the shared memory.
unfoldable pub blocks : (fuel : ℕ) (localdata : List ℕ) (i lenleft : ℕ) → List (List ℕ)
blocks zero localdata i lenleft = []
blocks (suc n) localdata i lenleft =
    let rest = blocks n localdata (i + 1) (lenleft - 512) in
    take (min lenleft 512) (drop (i * 512) localdata) ∷ (if ltb lenleft 512 then [] else rest)

-- The end of `VMFileWrite`.
unfoldable pub file_written : Vm → (shareid writeloc : ℕ) → (byteswritten : ℤ) → Outcome
unfolding file_done
file_written v shareid writeloc byteswritten =
    let w = (vm_memory_pool_deallocate v shareid writeloc).2 in
    file_done byteswritten (with_cd w byteswritten)

-- The beginning of `VMFileRead`. Only `length` is read before it is compared with NULL.
unfoldable pub vm_file_read :
    Vm → (shareid data_ : ℕ) → (length_ : Option ℤ) → Status × Option ℕ × Outcome
unfolding share_round
vm_file_read v shareid data_ (some (pos len)) =
    let w = with_cd (suspend v) (negsuc 727) in
    let start = share_round w shareid len in
    if data_ == null
    then (invalid_parameter, none, returned invalid_parameter none (resume w))
    else start
vm_file_read v shareid data_ (some (negsuc n)) = (failure, none, undefined)
vm_file_read v shareid data_ none = (failure, none, undefined)

-- The loop of `VMFileWrite` behind the copies: the sum of what the rounds report.
unfoldable pub written_rounds : (fuel : ℕ) (results : ℕ → ℤ) (i lenleft : ℕ) (byteswritten : ℤ) → ℤ
written_rounds zero results i lenleft byteswritten = byteswritten
written_rounds (suc n) results i lenleft byteswritten =
    let total = byteswritten +ℤ results i in
    let rest = written_rounds n results (i + 1) (lenleft - 512) total in
    if ltb lenleft 512 then total else rest

-- The buffer that `VMFileWrite` hands over: `strcpy` of the data, and what stood behind it.
abbrev pub localdata : (data_ junk : List ℕ) → List ℕ
localdata data_ junk = c_string data_ ++ (0 ∷ junk)

-- `memcpy` into a buffer, at a place.
abbrev pub store_at : (buffer : List ℕ) (place : ℕ) (bytes : List ℕ) → List ℕ
store_at buffer place bytes = take place buffer ++ (bytes ++ drop (place + length bytes) buffer)

-- The loop of `VMFileRead` below descriptor 3. `answers i` is what round `i` reports, and what it
-- leaves in the shared memory from the address on; `retval` is the whole buffer. A round more is
-- made than the length has whole blocks.
unfoldable pub read_rounds :
    (fuel : ℕ) (answers : ℕ → ℤ × List ℕ) (i lenleft : ℕ) (bytesread : ℤ) (retval : List ℕ)
    → ℤ × List ℕ
read_rounds zero answers i lenleft bytesread retval = (bytesread, retval)
read_rounds (suc n) answers i lenleft bytesread retval =
    let (result, memory) = answers i in
    let total = bytesread +ℤ result in
    let filled = store_at retval (i * 512) (take (min lenleft 512) memory) in
    let rest = read_rounds n answers (i + 1) (lenleft - 512) total filled in
    if ltb lenleft 512 then (total, filled) else rest

-- The end of `VMFileRead`: the number of bytes and the string that are stored, and the outcome. It
-- gives nothing back to the pool of the shared memory.
unfoldable pub file_read : ℤ → (retval : List ℕ) → Vm → Option (ℕ × List ℕ) × Outcome
file_read (pos n) retval v = (some (n, c_string retval), returned success none (resume v))
file_read (negsuc n) retval v = (none, returned failure none (resume v))

-- Descriptors from 3 on are those of open directories, whose name is looked up in the mounted image.
-- A descriptor that is not open is a method call on NULL; `unset` memory and a loop without end have
-- no outcome either.
unfoldable pub read_mounted :
    (ℕ → ℕ → List ℕ) → Vm → (filedescriptor : ℤ) → (length_ : ℕ) → Option (ℕ × List ℕ) × Outcome
unfolding file_read
read_mounted read_at v filedescriptor length_ = elim (find_dir filedescriptor v.dirs) [
  | none ↦ (none, undefined)
  | some dir ↦
      elim (read_from_file read_at v.vmfat (c_string dir.dirent.d_short_file_name) length_) [
        | contents s ↦ file_read (pos (length s)) (c_string s) (with_cd v (pos (length s)))
        | failed ↦ (none, returned failure none (resume v))
        | unset ↦ (none, undefined)
        | endless ↦ (none, undefined)
      ]
]
