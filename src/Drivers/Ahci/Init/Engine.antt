-- ===== src/Drivers/Ahci/Init/Engine.antt =====
-- stop_cmd and start_cmd of drivers/ahci/ahci.c, and what the controller's registers do about them.
use ester.Prelude.{ℕ, zero, suc, ◌+◌, ◌≤◌, ◌<◌, ◌≡◌, refl, true, false, ◌∙◌, some, Cells, arith}
use ester.Drivers.Ahci.{
  Machine, port_clb, port_is, port_cmd, has_bit, with_bit, without_bit, change, stop_cmd, start_cmd,
}
use ester.Drivers.Ahci.Init.Polls.{reads, Clears, wait_clear-ends, wait_stopped-ends}

-- ST and FRE of the port's PxCMD read as clear.
abbrev pub IsStopped : {M : Type 0} → Machine M → ℕ → M → Type 0
IsStopped machine port m =
    (has_bit (machine.get (port + port_cmd) m).0 0 ≡ false)
    × (has_bit (machine.get (port + port_cmd) m).0 4 ≡ false)

-- Documented behaviour of the controller with this port: registers are apart from the memory, and
-- PxCLB reads as it was written, also behind writes of the three registers after it.
pub record IsHost {M : Type 0} (machine : Machine M) (port : ℕ) : Type 0 where
  pub memory_get : (reg : ℕ) (m : M) → machine.memory (machine.get reg m).1 ≡ machine.memory m
  pub memory_put : (reg x : ℕ) (m : M) → machine.memory (machine.put reg x m) ≡ machine.memory m
  pub memory_set : (c : Cells) (m : M) → machine.memory (machine.set_memory c m) ≡ c
  pub list_put :
      (x : ℕ) (m : M) → (machine.get (port + port_clb) (machine.put (port + port_clb) x m)).0 ≡ x
  pub list_other :
      (reg x : ℕ) (m : M)
      → port + port_clb < reg
      → reg < port + port_is
      → (machine.get (port + port_clb) (machine.put reg x m)).0
        ≡ (machine.get (port + port_clb) m).0
  pub list_get :
      (reg : ℕ) (m : M)
      → (machine.get (port + port_clb) (machine.get reg m).1).0
        ≡ (machine.get (port + port_clb) m).0
  pub list_set :
      (c : Cells) (m : M)
      → (machine.get (port + port_clb) (machine.set_memory c m)).0
        ≡ (machine.get (port + port_clb) m).0

-- Documented behaviour of the port's command engine. ST and FRE, the bits 0 and 4 of PxCMD, read as
-- they were written, and stay so through reads, writes of the memory, and writes of PxCLB, PxCLBU,
-- PxFB and PxFBU. Once both read as clear, FR and CR, the bits 14 and 15, read as clear after `t`
-- reads more; while one of them is set, nothing is known of FR and CR.
pub record IsEngine {M : Type 0} (machine : Machine M) (port t : ℕ) : Type 0 where
  pub start_put :
      (x : ℕ) (m : M)
      → has_bit (machine.get (port + port_cmd) (machine.put (port + port_cmd) x m)).0 0
        ≡ has_bit x 0
  pub receive_put :
      (x : ℕ) (m : M)
      → has_bit (machine.get (port + port_cmd) (machine.put (port + port_cmd) x m)).0 4
        ≡ has_bit x 4
  pub stopped_get :
      (reg : ℕ) (m : M) → IsStopped machine port m → IsStopped machine port (machine.get reg m).1
  pub stopped_put :
      (reg x : ℕ) (m : M)
      → port ≤ reg
      → reg < port + port_is
      → IsStopped machine port m
      → IsStopped machine port (machine.put reg x m)
  pub stopped_set :
      (c : Cells) (m : M)
      → IsStopped machine port m
      → IsStopped machine port (machine.set_memory c m)
  pub receive_ends : (m : M) → IsStopped machine port m → Clears machine (port + port_cmd) 14 t m
  pub list_ends : (m : M) → IsStopped machine port m → Clears machine (port + port_cmd) 15 t m

-- Documented behaviour of the controller's reset: once HR, the bit 0 of GHC, was written as set, it
-- reads as clear after `t` reads.
abbrev pub Resets : {M : Type 0} → Machine M → ℕ → ℕ → Type 0
Resets machine reg t =
    (x : ℕ) (m : _) → has_bit x 0 ≡ true → Clears machine reg 0 t (machine.put reg x m)

has-with_bit : (x : ℕ) → has_bit (with_bit x 0) 0 ≡ true
has-with_bit x = ground arith

-- ahci_start asks for the reset.
pub asked-Clears :
    {M : Type 0} (machine : Machine M) (reg t : ℕ) (m : M)
    → Resets machine reg t
    → Clears machine reg 0 t (change machine reg (λ x. with_bit x 0) m)
unfolding change
asked-Clears machine reg t m resets =
    let (x, m1) = machine.get reg m in resets (with_bit x 0) m1 (has-with_bit x)

has-without_start : (x : ℕ) → has_bit (without_bit x 0) 0 ≡ false
has-without_start x = ground arith

has-without_receive : (x : ℕ) → has_bit (without_bit x 4) 4 ≡ false
has-without_receive x = ground arith

kept-without_receive : (x : ℕ) → has_bit x 0 ≡ false → has_bit (without_bit x 4) 0 ≡ false
kept-without_receive x h = ground arith

module _ {M : Type 0} (machine : Machine M) (port : ℕ) (host : IsHost machine port) where
  memory-reads : (reg n : ℕ) (m : M) → machine.memory (reads machine reg n m) ≡ machine.memory m
  memory-reads reg zero m = refl
  memory-reads reg (suc n) m = memory-reads reg n (machine.get reg m).1 ∙ host.memory_get reg m

  memory-change :
      (reg : ℕ) (f : ℕ → ℕ) (m : M) → machine.memory (change machine reg f m) ≡ machine.memory m
  unfolding change
  memory-change reg f m = host.memory_put reg _ _ ∙ host.memory_get reg m

  module _ (t : ℕ) (engine : IsEngine machine port t) where
    reads-IsStopped :
        (n : ℕ) (m : M)
        → IsStopped machine port m
        → IsStopped machine port (reads machine (port + port_cmd) n m)
    reads-IsStopped zero m h = h
    reads-IsStopped (suc n) m h =
        reads-IsStopped n (machine.get (port + port_cmd) m).1
          (engine.stopped_get (port + port_cmd) m h)

    -- The two changes of stop_cmd clear both bits, whatever state the engine was in.
    off-IsStopped :
        (m : M)
        → IsStopped machine port (
            change machine
              (port + port_cmd)
              (λ x. without_bit x 4)
              (change machine (port + port_cmd) (λ x. without_bit x 0) m))
    unfolding change
    off-IsStopped m =
        let (x, m0) = machine.get (port + port_cmd) m in
        let m1 = machine.put (port + port_cmd) (without_bit x 0) m0 in
        let (y, m2) = machine.get (port + port_cmd) m1 in
        (
          engine.start_put (without_bit y 4) m2
              ∙ kept-without_receive y
                  (engine.start_put (without_bit x 0) m0 ∙ has-without_start x),
          engine.receive_put (without_bit y 4) m2 ∙ has-without_receive y,
        )

    pub stop_cmd-ends :
        (fuel : ℕ) (m : M)
        → t < fuel
        → (m' : M) × (stop_cmd machine fuel port m ≡ some m') × IsStopped machine port m'
    unfolding stop_cmd
    stop_cmd-ends fuel m enough =
        let off = off-IsStopped m in
        let (n, e) =
          wait_stopped-ends machine fuel port t _ (engine.receive_ends _ off)
            (engine.list_ends _ off) enough in
        (_, e, reads-IsStopped n _ off)

    pub start_cmd-ends :
        (fuel : ℕ) (m : M)
        → IsStopped machine port m
        → t < fuel
        → (m' : M) × (start_cmd machine fuel port m ≡ some m')
          × (machine.memory m' ≡ machine.memory m)
    unfolding start_cmd
    start_cmd-ends fuel m off enough =
        let (n, e) =
          wait_clear-ends machine fuel (port + port_cmd) 15 t m (engine.list_ends m off) enough in
        (
          change machine (port + port_cmd) (λ x. with_bit x 0)
              (change machine (port + port_cmd) (λ x. with_bit x 4)
                (reads machine (port + port_cmd) n m)),
          rw e,
          memory-change (port + port_cmd) _ _
              ∙ memory-change (port + port_cmd) _ _
              ∙ memory-reads (port + port_cmd) n m,
        )
