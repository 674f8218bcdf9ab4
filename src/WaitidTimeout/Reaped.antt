-- ===== src/WaitidTimeout/Reaped.antt =====
-- What is known of a child when `wait_timeout_or_kill` returns.
use program_explorer.Prelude.{ℕ, ◌≡◌, Bool, true, false, ◌⊎◌}
use program_explorer.Prelude.Result.{ok}
use program_explorer.WaitidTimeout.{
  is_zero, Kernel, SiginfoT, WaitIdData, WaitIdDataOvertime, exited_overtime,
}

module _ {K E Rusage : Type 0} (kernel : Kernel K E Rusage) where
  -- The call of waitid has succeeded, with a pid: it has taken a child that has ended.
  pub record IsReaped (k : K) (hang : Bool) (siginfo : SiginfoT) (rusage : Rusage) (k' : K)
      : Type 0 where
    pub call_eq :
        let r = kernel.sys_waitid k hang in
        (((r.0).0).1 ≡ siginfo) × ((r.0).1 ≡ rusage) × (r.1 ≡ k')
    pub succeeded : is_zero (((kernel.sys_waitid k hang).0).0).0 ≡ true
    pub has_pid : is_zero siginfo.si_pid ≡ false

  -- The call has succeeded without a pid: the child still runs.
  pub record IsRunning (k : K) (hang : Bool) (k' : K) : Type 0 where
    pub call_eq : (kernel.sys_waitid k hang).1 ≡ k'
    pub succeeded : is_zero (((kernel.sys_waitid k hang).0).0).0 ≡ true
    pub no_pid : is_zero ((((kernel.sys_waitid k hang).0).0).1).si_pid ≡ true

  -- The time is over: there was no event, or there was one and the child still runs.
  abbrev pub IsOver : K → ℕ → K → Type 0
  IsOver k duration k1 =
      (kernel.poll k duration ≡ ok (false, k1))
      ⊎ ((k0 : K) × (kernel.poll k duration ≡ ok (true, k0)) × IsRunning k0 false k1)

  -- What `wait_timeout` reports, and why.
  abbrev pub WaitExplains : K → ℕ → WaitIdData Rusage × K → Type 0
  WaitExplains k duration (WaitIdData.exited siginfo rusage, k') =
      (k1 : K) × (kernel.poll k duration ≡ ok (true, k1)) × IsReaped k1 false siginfo rusage k'
  WaitExplains k duration (WaitIdData.not_exited, k') = IsOver k duration k'

  -- What `wait_timeout_or_kill` reports, and why. `9` is the number of SIGKILL.
  abbrev pub Explains : K → ℕ → WaitIdDataOvertime Rusage × K → Type 0
  Explains k duration (WaitIdDataOvertime.exited siginfo rusage, k') =
      (k1 : K) × (kernel.poll k duration ≡ ok (true, k1)) × IsReaped k1 false siginfo rusage k'
  Explains k duration (exited_overtime siginfo rusage, k') =
      (k1 : K) × (k2 : K) × IsOver k duration k1
      × (kernel.kill k1 9 ≡ ok k2)
      × IsReaped k2 true siginfo rusage k'
  Explains k duration (WaitIdDataOvertime.not_exited, k') = ⊥

  -- A child to which SIGKILL was sent ends: a call of waitid for it that hangs and succeeds has its pid.
  abbrev pub IsKilling : Type 0
  IsKilling =
      (k1 k2 : K)
      → kernel.kill k1 9 ≡ ok k2
      → is_zero (((kernel.sys_waitid k2 true).0).0).0 ≡ true
      → is_zero ((((kernel.sys_waitid k2 true).0).0).1).si_pid ≡ false

  -- The two reports of waitid.
  abbrev pub WaitidExplains : K → Bool → WaitIdData Rusage × K → Type 0
  WaitidExplains k hang (WaitIdData.exited siginfo rusage, k') = IsReaped k hang siginfo rusage k'
  WaitidExplains k hang (WaitIdData.not_exited, k') = IsRunning k hang k'
