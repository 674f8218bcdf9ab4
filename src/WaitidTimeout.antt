-- ===== src/WaitidTimeout.antt =====
-- Waiting for a child (waitid_timeout/src/lib.rs), with the kernel as a parameter: the system call
-- waitid, the poll of a pidfd and its kill, on a state of the kernel. A child that could not be polled or
-- killed leaves the error of the call.
pub mod Reaped
mod Tests
use program_explorer.Prelude.{
  ℕ, zero, suc, ◌≡◌, Bool, true, false, Option, none, some, if◌then◌else◌, ◌==◌,
}
use program_explorer.Prelude.Result.{Result, ok, err, ◌>>=◌}
use program_explorer.Peinit.Types.{ℤ, pos, negsuc}

-- The fields of `siginfo_t` that are read.
pub record SiginfoT : Type 0 where
  pub si_pid : ℤ
  pub si_status : ℤ
  pub si_code : ℤ

pub data WaitIdData (Rusage : Type 0) : Type 0 where
  exited : SiginfoT → Rusage → WaitIdData Rusage
  not_exited : WaitIdData Rusage

pub data WaitIdDataOvertime (Rusage : Type 0) : Type 0 where
  exited exited_overtime : SiginfoT → Rusage → WaitIdDataOvertime Rusage
  not_exited : WaitIdDataOvertime Rusage

pub data Siginfo : Type 0 where
  exited killed dumped trapped stopped continued : ℤ → Siginfo
  unk : Siginfo

-- `Siginfo::from`, with the codes CLD_EXITED to CLD_CONTINUED.
unfoldable pub siginfo_from : SiginfoT → Siginfo
siginfo_from x = by_code x.si_code
  where
    by_number : ℕ → Siginfo
    by_number n =
        if n == 1
        then Siginfo.exited x.si_status
        else if n == 2
        then killed x.si_status
        else if n == 3
        then dumped x.si_status
        else if n == 4
        then trapped x.si_status
        else if n == 5
        then stopped x.si_status
        else if n == 6
        then continued x.si_status
        else unk

    by_code : ℤ → Siginfo
    by_code (pos n) = by_number n
    by_code (negsuc n) = unk

abbrev pub IsHanging : Type 0
IsHanging = Bool

-- What the kernel does: waitid on a child that has exited or, if the call hangs, once it has; the
-- wait for the pidfd to become readable, which gives whether there was an event; and a signal.
pub record Kernel (K E Rusage : Type 0) : Type 0 where
  pub sys_waitid : K → IsHanging → ((ℤ × SiginfoT) × Rusage) × K
  pub last_os_error : K → E
  pub poll : K → ℕ → Result E (Bool × K)
  pub kill : K → ℕ → Result E K

abbrev pub sigkill : ℕ
sigkill = 9

abbrev pub is_zero : ℤ → Bool
is_zero (pos n) = n == 0
is_zero (negsuc n) = false

module _ {K E Rusage : Type 0} (kernel : Kernel K E Rusage) where
  -- The results of waitid, by its return value and the pid.
  unfoldable pub of_waitid : ((ℤ × SiginfoT) × Rusage) × K → Result E (WaitIdData Rusage × K)
  of_waitid r =
      if is_zero ((r.0).0).0
      then if is_zero (((r.0).0).1).si_pid
        then ok (WaitIdData.not_exited, r.1)
        else ok (WaitIdData.exited ((r.0).0).1 (r.0).1, r.1)
      else err (kernel.last_os_error r.1)

  unfoldable pub waitid : K → IsHanging → Result E (WaitIdData Rusage × K)
  waitid k hang = of_waitid (kernel.sys_waitid k hang)

  abbrev pub after_poll : Bool × K → Result E (WaitIdData Rusage × K)
  after_poll (false, k) = ok (WaitIdData.not_exited, k)
  after_poll (true, k) = waitid k false

  unfoldable pub wait_timeout : K → ℕ → Result E (WaitIdData Rusage × K)
  wait_timeout k duration = kernel.poll k duration >>= after_poll

  abbrev pub overtime : WaitIdData Rusage × K → Result E (WaitIdDataOvertime Rusage × K)
  overtime (WaitIdData.exited siginfo rusage, k) = ok (exited_overtime siginfo rusage, k)
  overtime (WaitIdData.not_exited, k) = ok (WaitIdDataOvertime.not_exited, k)

  -- The child has exited in time, or it is killed and waited for.
  abbrev pub or_kill : WaitIdData Rusage × K → Result E (WaitIdDataOvertime Rusage × K)
  or_kill (WaitIdData.exited siginfo rusage, k) = ok (WaitIdDataOvertime.exited siginfo rusage, k)
  or_kill (WaitIdData.not_exited, k) = do k1 ← kernel.kill k sigkill; r ← waitid k1 true; overtime r

  unfoldable pub wait_timeout_or_kill : K → ℕ → Result E (WaitIdDataOvertime Rusage × K)
  wait_timeout_or_kill k duration = wait_timeout k duration >>= or_kill
