-- ===== src/Program/Print.antt =====
-- `VMFilePrint` and `VMDateTime` (VirtualMachineUtils.c).
use proj.Base.{ap, arith, take_all, ◌≤◌}
use proj.Base.{Bool-cases, List, if◌then◌else◌, inl, inr, length, take, ℕ, ◌+◌, ◌-◌, ◌≡◌}
use proj.Base.Int.{ltb_ℤ, pos, pos_part, ℤ}
use proj.Fat.Entries.{DateTime}
use proj.Vm.State.{Status}

abbrev pub small_buffer_size : ℕ
small_buffer_size = 256

-- `vsnprintf n` is the call for a buffer of `n` bytes, with the format and its arguments: the
-- characters that it stores before the NUL, and what it returns. `write` is `VMFileWrite` to the
-- descriptor.
module _ (vsnprintf : ℕ → List ℕ × ℤ) (write : (data_ : List ℕ) → (length_ : ℤ) → Status) where
  unfoldable pub vm_file_print : Status
  vm_file_print =
      let (small, required) = vsnprintf small_buffer_size in
      let (large, printed) = vsnprintf (pos_part required + 1) in
      if ltb_ℤ required (pos small_buffer_size) then write small required else write large printed

  -- Where vsnprintf stores as much of a text as the buffer holds and returns the text's length,
  -- VMFilePrint writes the whole text, however long it is, with its length.
  pub vm_file_print_lem :
      (text : List ℕ)
      → ((n : ℕ) → vsnprintf n ≡ (take (n - 1) text, pos (length text)))
      → vm_file_print ≡ write text (pos (length text))
  unfolding vm_file_print
  vm_file_print_lem text stores =
      elim (Bool-cases (ltb_ℤ (pos (length text)) (pos small_buffer_size))) [
        | inl e ↦
            let fits : length text ≤ small_buffer_size - 1 = ground arith in
            rw (vm_file_print, stores small_buffer_size, e)
              (ap (λ s. write s (pos (length text))) (take_all (small_buffer_size - 1) text fits))
        | inr e ↦
            rw (vm_file_print, stores small_buffer_size, e, stores (length text + 1))
              (ap (λ s. write s (pos (length text)))
                (take_all (length text + 1 - 1) text (omega arith)))
      ]

-- `struct tm`, as `localtime` gives it.
pub record Tm : Type 0 where
  pub tm_sec : ℕ
  pub tm_min : ℕ
  pub tm_hour : ℕ
  pub tm_mday : ℕ
  pub tm_mon : ℕ
  pub tm_year : ℕ

abbrev pub vm_date_time : Tm → DateTime
vm_date_time local = record {
  d_year = local.tm_year + 1900;
  d_month = local.tm_mon + 1;
  d_day = local.tm_mday;
  d_hour = local.tm_hour;
  d_minute = local.tm_min;
  d_second = local.tm_sec;
  d_hundredth = 0;
}
