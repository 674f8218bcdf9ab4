-- ===== src/WaitidTimeout/Tests.antt =====
-- The wait for a child, with a kernel of one child that runs until it is killed or its time is over.
use program_explorer.Prelude.{ℕ, ◌≡◌, refl, Bool, true, false}
use program_explorer.Prelude.Result.{ok}
use program_explorer.Peinit.Types.{ℤ, pos, negsuc}
use program_explorer.WaitidTimeout.{
  Kernel, of_waitid, SiginfoT, wait_timeout, wait_timeout_or_kill, waitid, exited_overtime,
  siginfo_from, killed,
}

-- Whether the child has ended.
abbrev Child : Type 0
Child = Bool

abbrev by_sigkill : SiginfoT
by_sigkill = record { si_pid = pos 7; si_status = pos 9; si_code = pos 2 }

abbrev nothing : SiginfoT
nothing = record { si_pid = pos 0; si_status = pos 0; si_code = pos 0 }

-- A call that does not hang gives no pid while the child runs; one that hangs does not return then,
-- which is here an error.
abbrev sys_waitid : Child → Bool → ((ℤ × SiginfoT) × ℕ) × Child
sys_waitid true hang = (((pos 0, by_sigkill), 0), true)
sys_waitid false true = (((negsuc 0, nothing), 0), false)
sys_waitid false false = (((pos 0, nothing), 0), false)

abbrev kernel : Kernel Child ℕ ℕ
kernel = record {
  sys_waitid = sys_waitid;
  last_os_error = λ k. 4;
  poll = λ k duration. ok (k, k);
  kill = λ k signal. ok true;
}

killed_overtime : wait_timeout_or_kill kernel false 50 ≡ ok (exited_overtime by_sigkill 0, true)
unfolding wait_timeout_or_kill wait_timeout waitid of_waitid
killed_overtime = refl

by_sigkill_read : siginfo_from by_sigkill ≡ killed (pos 9)
unfolding siginfo_from
by_sigkill_read = refl
